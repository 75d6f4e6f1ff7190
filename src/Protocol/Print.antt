-- ===== src/Protocol/Print.antt =====
-- to_string of Header and of Message (include/spraybus/networking/protocol.hpp): the text that is
-- logged for a message, and a reader for its payload.
use spraybus.Prelude.{
  ℕ, zero, suc, ◌+◌, ◌*◌, ◌-◌, ◌/◌, ◌%◌, ◌≡◌, ◌≢◌, false, ◌<◌, refl, ap, ◌∙◌, List, [], ◌∷◌, ◌++◌,
  none, some, arith, All, get_elem?, length, leb, ◌==◌, if◌then◌else◌,
}
use spraybus.Word.{Endian, IsByte}
use spraybus.Text.{text, to_string}
use spraybus.Protocol.Enum.{origin_to_string, version_to_string, type_to_string}
use spraybus.Protocol.Header.{Header, topic_key}
use spraybus.Protocol.Message.{Message}

-- Header::to_string
unfoldable pub header_to_string : Endian → Header → List ℕ
header_to_string e h =
    text "Header { version: "
    ++ (version_to_string h.version
        ++ (text ", origin: "
            ++ (origin_to_string h.origin
                ++ (text ", type: "
                    ++ (type_to_string h.type
                        ++ (text ", topic_key: " ++ (to_string (topic_key e h) ++ text " }")))))))

-- static constexpr char hex[]
abbrev pub hex : List ℕ
hex = text "0123456789abcdef"

-- hex[i]; both uses have an index below 16.
unfoldable pub hex_char : ℕ → ℕ
hex_char i = elim (get_elem? hex i) [ some c ↦ c | none ↦ 0 ]

-- The loop over the payload from index i on. (byte >> 4) & 0x0f is byte / 16 % 16, and byte & 0x0f
-- is byte % 16.
unfoldable pub dump : ℕ → List ℕ → List ℕ
unfolding hex_char
dump i [] = []
dump i (byte ∷ bytes) =
    let separator = if i == 0 then [] else text " " in
    separator
    ++ (text "0x" ++ hex_char (byte / 16 % 16) ∷ hex_char (byte % 16) ∷ dump (i + 1) bytes)

-- Message::to_string
unfoldable pub message_to_string : Endian → Message → List ℕ
unfolding header_to_string dump
message_to_string e m =
    (text "Message { " ++ (header_to_string e m.header ++ text ", Payload { "))
    ++ (dump 0 m.payload ++ text " } }")

-- A reader for the dump.
hex_value : ℕ → ℕ
hex_value c = if leb c b'9' then c - b'0' else c - b'a' + 10

pub read_dump : List ℕ → List ℕ
unfolding hex_value
read_dump (_ ∷ _ ∷ h ∷ l ∷ []) = (hex_value h * 16 + hex_value l) ∷ []
read_dump (_ ∷ _ ∷ h ∷ l ∷ _ ∷ rest) = (hex_value h * 16 + hex_value l) ∷ read_dump rest
read_dump _ = []

-- The characters stand for n, n + 1, and so on.
abbrev Counts : ℕ → List ℕ → Type 0
Counts n [] = Unit {0}
Counts n (c ∷ cs) = (hex_value c ≡ n) × Counts (n + 1) cs

hex-Counts : Counts 0 hex
unfolding hex_value
hex-Counts = (
  refl,
  (
    refl,
    (
      refl,
      (
        refl,
        (
          refl,
          (
            refl,
            (refl, (refl, (refl, (refl, (refl, (refl, (refl, (refl, (refl, (refl, tt)))))))))),
          ),
        ),
      ),
    ),
  ),
)

counted :
    (n i : ℕ) (cs : List ℕ)
    → Counts n cs
    → i < length cs
    → (c : ℕ) × (get_elem? cs i ≡ some c) × (hex_value c ≡ n + i)
counted n i [] h b = absurd (omega arith)
counted n zero (c ∷ cs) h b = (c, refl, omega (arith, h.0))
counted n (suc i) (c ∷ cs) h b =
    let (d, at, value) = counted (n + 1) i cs h.1 (omega arith) in (d, at, omega (arith, value))

hex_value-hex_char : (i : ℕ) → i < 16 → hex_value (hex_char i) ≡ i
unfolding hex_char
hex_value-hex_char i b =
    let (c, at, value) = counted 0 i hex hex-Counts (omega arith) in rw at (omega (arith, value))

byte_value :
    (b : ℕ) → IsByte b → hex_value (hex_char (b / 16 % 16)) * 16 + hex_value (hex_char (b % 16)) ≡ b
byte_value b h =
    rw (hex_value-hex_char (b / 16 % 16) (omega arith), hex_value-hex_char (b % 16) (omega arith))
      (omega arith)

-- The dump from a later index on follows a byte.
read_dump_after :
    (i z x h l : ℕ) (bytes : List ℕ)
    → i ≢ 0
    → All IsByte bytes
    → read_dump (z ∷ x ∷ h ∷ l ∷ dump i bytes) ≡ (hex_value h * 16 + hex_value l) ∷ bytes
unfolding read_dump dump
read_dump_after i z x h l [] n b = refl
read_dump_after i z x h l (c ∷ cs) n b =
    let later : (i == 0) ≡ false = ground arith in
    rw
      (
        later,
        read_dump_after (i + 1) b'0' b'x' (hex_char (c / 16 % 16)) (hex_char (c % 16)) cs
            (omega arith) b.1,
        byte_value c b.0,
      )
      refl

read_dump-dump : (bytes : List ℕ) → All IsByte bytes → read_dump (dump 0 bytes) ≡ bytes
unfolding dump read_dump
read_dump-dump [] h = refl
read_dump-dump (b ∷ bs) h =
    read_dump_after 1 b'0' b'x' (hex_char (b / 16 % 16)) (hex_char (b % 16)) bs (omega arith) h.1
    ∙ ap (λ x. x ∷ bs) (byte_value b h.0)

-- The text of a message whose payload is bytes is its header's, and then the bytes of the payload
-- in hexadecimal, from which the payload can be read back.
pub printed_payload :
    (e : Endian) (m : Message)
    → All IsByte m.payload
    → (shown : List ℕ) × (message_to_string e m
        ≡ (text "Message { " ++ (header_to_string e m.header ++ text ", Payload { "))
          ++ (shown ++ text " } }"))
      × (read_dump shown ≡ m.payload)
unfolding message_to_string
printed_payload e m h = (dump 0 m.payload, refl, read_dump-dump m.payload h)
