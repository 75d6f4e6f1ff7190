-- ===== src/Protocol/RoundTrip.antt =====
-- Packets made by Constructor and read by Message, on one host and between hosts of either byte
-- order.
use mathlib.Core.Path.{ap₂}
use spraybus.Prelude.{
  ℕ, ◌≤◌, ◌<◌, ◌^◌, ◌≡◌, refl, ap, ◌∙◌, ◌↔◌, List, [], ◌∷◌, ◌++◌, arith, length, drop,
  length-append, take-append-drop, All,
}
use spraybus.Word.{Endian, big, IsByte, store, load, host_to_network64, network_to_host64}
use spraybus.Word.Laws.{
  Fits-word64, load-store, store-IsByte, length-store, store-host_to_network64,
  network_to_host64-load,
}
use spraybus.Exec.{ok}
use spraybus.Protocol.Enum.{
  Origin, MessageType, origin_value, origin_of, version_value, type_value, type_of,
}
use spraybus.Protocol.Header.{
  Header, header_size, make_header, header_bytes, read_header, topic_key,
}
use spraybus.Protocol.Message
use spraybus.Protocol.Message.{Constructor, Message, construct, new_message, parse_header}
use spraybus.Protocol.Layout.{
  IsHeader, image, drop-header_bytes, read-header_bytes, read-header_bytes_same,
  length-header_bytes, header_bytes-read,
}

zero_word : (e : Endian) → store e 4 0 ≡ 0 ∷ 0 ∷ 0 ∷ 0 ∷ []
unfolding store
zero_word Endian.little = refl
zero_word Endian.big = refl

abbrev message : Header → List ℕ → Message
message h payload = record { header = h; payload = payload; topic = [] }

parse_long :
    (e : Endian) (bs : List ℕ)
    → header_size ≤ length bs
    → new_message e bs ≡ ok (message (read_header e bs) (drop header_size bs))
unfolding new_message
parse_long e bs h = ground arith

parse_inversion :
    (e : Endian) (bs : List ℕ) (m : Message)
    → new_message e bs ≡ ok m
    → (header_size ≤ length bs) × (m ≡ message (read_header e bs) (drop header_size bs))
unfolding new_message
parse_inversion e bs m h = ground arith

parse_packet :
    (d e : Endian) (c : Constructor) (h : Header) (payload : List ℕ)
    → new_message d (construct e c h payload).1
      ≡ ok (message (read_header d (header_bytes e h ++ payload)) payload)
unfolding construct
parse_packet d e c h payload =
    parse_long d (header_bytes e h ++ payload)
      (omega (arith, length-append (header_bytes e h) payload, length-header_bytes e h))
    ∙ ap (λ p. ok (message (read_header d (header_bytes e h ++ payload)) p))
        (drop-header_bytes e h payload)

-- A packet built from a header that fits in memory is read back, on the same host, as that header
-- and that payload, whatever the constructor's buffer held before.
pub new_message-construct :
    (e : Endian) (c : Constructor) (h : Header) (payload : List ℕ)
    → IsHeader h
    → new_message e (construct e c h payload).1
      ≡ ok (record { header = h; payload = payload; topic = [] })
new_message-construct e c h payload v =
    parse_packet e e c h payload
    ∙ ap (λ g. ok (message g payload)) (read-header_bytes_same e h payload v)

-- A packet of bytes that is read as a message is built again from that message's header and
-- payload, byte for byte.
pub construct-new_message :
    (e : Endian) (c : Constructor) (bs : List ℕ) (m : Message)
    → All IsByte bs
    → new_message e bs ≡ ok m
    → (construct e c m.header m.payload).1 ≡ bs
construct-new_message e c bs m h p =
    let (long, form) = parse_inversion e bs m p in
    rw form (
      unfold construct in
      ap (λ hd. hd ++ drop header_size bs) (header_bytes-read e bs h long)
      ∙ take-append-drop header_size bs)

-- Reading a packet succeeds exactly if it is at least as long as a header.
pub new_message_iff :
    (e : Endian) (bs : List ℕ)
    → ((m : Message) × (new_message e bs ≡ ok m)) ↔ (header_size ≤ length bs)
new_message_iff e bs =
    (λ (m, p). (parse_inversion e bs m p).0, λ h. (message _ _, parse_long e bs h))

-- `bs` is received by a host of order `d` as a message of this type, origin, key and payload.
abbrev pub Carries : Endian → List ℕ → MessageType → Origin → ℕ → List ℕ → Type 0
Carries d bs type origin key payload =
    (m : Message) × (new_message d bs ≡ ok m)
    × (m.header.type ≡ type)
    × (m.header.origin ≡ origin)
    × (topic_key d m.header ≡ key)
    × (m.payload ≡ payload)

-- An origin or a type with an enumerator, or with a value that no enumerator has.
abbrev pub IsOrigin : Origin → Type 0
IsOrigin o = origin_of (origin_value o) ≡ o

received_key :
    (d e : Endian) (key : ℕ)
    → key < 2 ^ 64
    → network_to_host64 d (load d (store e 8 (host_to_network64 e key))) ≡ key
received_key d e key h =
    ap (λ bs. network_to_host64 d (load d bs)) (store-host_to_network64 e key)
    ∙ network_to_host64-load d (store big 8 key) (length-store big 8 key) (store-IsByte big 8 key)
    ∙ load-store big 8 key (Fits-word64 h)

module _ (e d : Endian) (c : Constructor) (origin : Origin) (named : IsOrigin origin) where
  carries :
      (type : MessageType) (key : ℕ) (payload : List ℕ)
      → type_of (type_value type) ≡ type
      → key < 2 ^ 64
      → Carries d (construct e c (make_header e origin type key) payload).1 type origin key payload
  unfolding make_header topic_key
  carries type key payload t h =
      let g = make_header e origin type key in
      let read = read-header_bytes e g payload d in
      (
        message (read_header d (header_bytes e g ++ payload)) payload,
        parse_packet d e c g payload,
        ap (λ (x : Header). x.type) read ∙ t,
        ap (λ (x : Header). x.origin) read ∙ named,
        ap (λ (x : Header). network_to_host64 d x.topic_key) read ∙ received_key d e key h,
        refl,
      )

-- The bytes on the wire of a packet that any of the methods builds: four zero bytes, the version in
-- the sender's byte order, the origin, the type, and then the key most significant byte first,
-- whatever the order of the sender; the payload follows.
pub wire_image :
    (e : Endian) (c : Constructor) (origin : Origin) (type : MessageType) (key : ℕ)
    (payload : List ℕ)
    → (construct e c (make_header e origin type key) payload).1
      ≡ (0 ∷ 0 ∷ 0 ∷ 0 ∷ [])
        ++ (store e 2 1 ++ (origin_value origin ∷ type_value type ∷ (store big 8 key ++ payload)))
unfolding construct make_header version_value
wire_image e c origin type key payload =
    image e (make_header e origin type key) payload
    ∙ ap₂
        (λ zeros k.
          zeros ++ (store e 2 1 ++ (origin_value origin ∷ type_value type ∷ (k ++ payload))))
        (zero_word e) (store-host_to_network64 e key)

-- Every packet kind, built with a 64-bit key and a named origin and received by a host of either
-- order d from a host of either order e, has the type of the method that built it, and the sender's
-- origin, key and payload. A topic request carries key 0, and subscribe and unsubscribe carry no
-- payload.
pub packets_carry :
    (e d : Endian) (c : Constructor) (origin : Origin) (key : ℕ) (payload : List ℕ)
    → IsOrigin origin
    → key < 2 ^ 64
    → Carries d
        (Message.topic_request e c payload origin).1
        MessageType.topic_request
        origin
        0
        payload
      × Carries d
          (Message.topic_response e c key payload origin).1
          MessageType.topic_response
          origin
          key
          payload
      × Carries d (Message.publish e c key payload origin).1 MessageType.publish origin key payload
      × Carries d (Message.subscribe e c key origin).1 MessageType.subscribe origin key []
      × Carries d (Message.unsubscribe e c key origin).1 MessageType.unsubscribe origin key []
      × Carries d (Message.fanout e c key payload origin).1 MessageType.fanout origin key payload
unfolding Message.topic_request Message.topic_response Message.publish Message.subscribe
    Message.unsubscribe Message.fanout type_of type_value
packets_carry e d c origin key payload named h = (
  carries e d c origin named MessageType.topic_request 0 payload refl (omega arith),
  carries e d c origin named MessageType.topic_response key payload refl h,
  carries e d c origin named MessageType.publish key payload refl h,
  carries e d c origin named MessageType.subscribe key [] refl h,
  carries e d c origin named MessageType.unsubscribe key [] refl h,
  carries e d c origin named MessageType.fanout key payload refl h,
)
