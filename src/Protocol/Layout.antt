-- ===== src/Protocol/Layout.antt =====
-- Where the fields of the header lie in a packet.
use mathlib.Core.List.{append_assoc}
use mathlib.Core.Path.{ap₂}
use spraybus.Prelude.{
  ℕ, ◌+◌, ◌≤◌, ◌≡◌, sym, ap, ◌∙◌, List, [], ◌∷◌, ◌++◌, arith, length, take, drop, take-append_of,
  drop-append_of, drop-drop, take-add, length-take, length-drop, length-append, All, All-take,
  All-drop, subst,
}
use spraybus.Word.{Endian, little, big, IsByte, store, load, Fits}
use spraybus.Word.Laws.{length-store, load-store, store-load}
use spraybus.Protocol.Enum.{origin_value, origin_of, version_value, version_of, type_value, type_of}
use spraybus.Protocol.Header.{Header, header_size, header_bytes, read_header}

-- A header that can lie in memory: its words fit, and its enums are read back as they are.
pub record IsHeader (h : Header) : Type 0 where
  pub reserved_fits : Fits 4 h.reserved
  pub version_fits : Fits 2 (version_value h.version)
  pub version_named : version_of (version_value h.version) ≡ h.version
  pub origin_named : origin_of (origin_value h.origin) ≡ h.origin
  pub type_named : type_of (type_value h.type) ≡ h.type
  pub topic_key_fits : Fits 8 h.topic_key

pub load_byte : (e : Endian) (b : ℕ) → load e (b ∷ []) ≡ b
unfolding load
load_byte little b = omega arith
load_byte big b = omega arith

-- A packet cut at offsets 4, 6, 7, 8 and 16.
abbrev pub cut : List ℕ → List ℕ → ℕ → ℕ → List ℕ → List ℕ → List ℕ
cut a b o t c r = a ++ (b ++ (o ∷ t ∷ (c ++ r)))

module _ (a b : List ℕ) (o t : ℕ) (c r : List ℕ) (la : length a ≡ 4) (lb : length b ≡ 2)
    (lc : length c ≡ 8) where
  abbrev whole : List ℕ
  whole = cut a b o t c r

  cut_4 : drop 4 whole ≡ b ++ (o ∷ t ∷ (c ++ r))
  cut_4 = drop-append_of 4 a _ la

  cut_6 : drop 6 whole ≡ o ∷ t ∷ (c ++ r)
  cut_6 = sym (drop-drop 4 2 whole) ∙ ap (drop 2) cut_4 ∙ drop-append_of 2 b _ lb

  cut_7 : drop 7 whole ≡ t ∷ (c ++ r)
  cut_7 = sym (drop-drop 6 1 whole) ∙ ap (drop 1) cut_6

  cut_8 : drop 8 whole ≡ c ++ r
  cut_8 = sym (drop-drop 6 2 whole) ∙ ap (drop 2) cut_6

  pub cut_16 : drop 16 whole ≡ r
  cut_16 = sym (drop-drop 8 8 whole) ∙ ap (drop 8) cut_8 ∙ drop-append_of 8 c r lc

  read_cut :
      (e : Endian)
      → read_header e whole ≡ record {
        reserved = load e a;
        version = version_of (load e b);
        origin = origin_of o;
        type = type_of t;
        topic_key = load e c;
      }
  unfolding read_header
  read_cut e = λ i. record {
    reserved = load e (take-append_of 4 a (b ++ (o ∷ t ∷ (c ++ r))) la i);
    version = version_of (load e ((ap (take 2) cut_4 ∙ take-append_of 2 b _ lb) i));
    origin = origin_of ((ap (λ xs. load e (take 1 xs)) cut_6 ∙ load_byte e o) i);
    type = type_of ((ap (λ xs. load e (take 1 xs)) cut_7 ∙ load_byte e t) i);
    topic_key = load e ((ap (take 8) cut_8 ∙ take-append_of 8 c r lc) i);
  }

-- The bytes of a header followed by a payload, cut into the fields.
pub image :
    (e : Endian) (h : Header) (rest : List ℕ)
    → header_bytes e h ++ rest
      ≡ cut
          (store e 4 h.reserved)
          (store e 2 (version_value h.version))
          (origin_value h.origin)
          (type_value h.type)
          (store e 8 h.topic_key)
          rest
unfolding header_bytes
image e h rest = simp append_assoc

module _ (e : Endian) (h : Header) (rest : List ℕ) where
  -- The packet is at least as long as a header, and the payload follows the header.
  pub drop-header_bytes : drop header_size (header_bytes e h ++ rest) ≡ rest
  drop-header_bytes =
      ap (drop 16) (image e h rest)
      ∙ cut_16 _ _ _ _ _ rest (length-store e 4 _) (length-store e 2 _) (length-store e 8 _)

  -- What a host of order `d` reads from the header that a host of order `e` wrote.
  pub read-header_bytes :
      (d : Endian)
      → read_header d (header_bytes e h ++ rest) ≡ record {
        reserved = load d (store e 4 h.reserved);
        version = version_of (load d (store e 2 (version_value h.version)));
        origin = origin_of (origin_value h.origin);
        type = type_of (type_value h.type);
        topic_key = load d (store e 8 h.topic_key);
      }
  read-header_bytes d =
      ap (read_header d) (image e h rest)
      ∙ read_cut _ _ _ _ _ rest (length-store e 4 _) (length-store e 2 _) (length-store e 8 _) d

-- On one host, reading undoes writing.
pub read-header_bytes_same :
    (e : Endian) (h : Header) (rest : List ℕ)
    → IsHeader h
    → read_header e (header_bytes e h ++ rest) ≡ h
read-header_bytes_same e h rest v = read-header_bytes e h rest e ∙ λ i. record {
  reserved = load-store e 4 h.reserved v.reserved_fits i;
  version = (ap version_of (load-store e 2 _ v.version_fits) ∙ v.version_named) i;
  origin = v.origin_named i;
  type = v.type_named i;
  topic_key = load-store e 8 h.topic_key v.topic_key_fits i;
}

pub length-header_bytes : (e : Endian) (h : Header) → length (header_bytes e h) ≡ header_size
unfolding header_bytes
length-header_bytes e h = omega (
  arith,
  length-append (store e 4 h.reserved),
  length-append (store e 2 (version_value h.version)),
  length-store e 4 h.reserved,
  length-store e 2 (version_value h.version),
  length-store e 8 h.topic_key,
)

-- A slice of one byte is that byte.
origin_value-origin_of : (n : ℕ) → origin_value (origin_of n) ≡ n
unfolding origin_value origin_of
origin_value-origin_of n = ground arith

type_value-type_of : (n : ℕ) → type_value (type_of n) ≡ n
unfolding type_value type_of
type_value-type_of n = ground arith

version_value-version_of : (n : ℕ) → version_value (version_of n) ≡ n
unfolding version_value version_of
version_value-version_of n = ground arith

single_byte : (e : Endian) (bs : List ℕ) → length bs ≡ 1 → bs ≡ load e bs ∷ []
single_byte e [] h = absurd (omega arith)
single_byte e (b ∷ []) h = ap (λ x. x ∷ []) (sym (load_byte e b))
single_byte e (b ∷ c ∷ bs) h = absurd (omega arith)

module _ (bs : List ℕ) where
  abbrev slice : ℕ → ℕ → List ℕ
  slice n k = take k (drop n bs)

  length-slice : (n k : ℕ) → n + k ≤ length bs → length (slice n k) ≡ k
  length-slice n k h = length-take k (drop n bs) (omega (arith, length-drop n bs))

  -- Two adjacent slices are one.
  slice_join : (n j k : ℕ) → slice n j ++ slice (n + j) k ≡ slice n (j + k)
  slice_join n j k = rw (← drop-drop n j bs) (take-add j k (drop n bs))

  module _ (e : Endian) (h : All IsByte bs) where
    slice_word : (n k : ℕ) → n + k ≤ length bs → store e k (load e (slice n k)) ≡ slice n k
    slice_word n k fits =
        subst (λ w. store e w (load e (slice n k)) ≡ slice n k) (length-slice n k fits)
          (store-load e (slice n k) (All-take IsByte k (drop n bs) (All-drop IsByte n bs h)))

    slice_byte : (n : ℕ) → n + 1 ≤ length bs → slice n 1 ≡ load e (slice n 1) ∷ []
    slice_byte n fits = single_byte e (slice n 1) (length-slice n 1 fits)

-- Writing undoes reading: the header read from a packet has the packet's first 16 bytes.
pub header_bytes-read :
    (e : Endian) (bs : List ℕ)
    → All IsByte bs
    → header_size ≤ length bs
    → header_bytes e (read_header e bs) ≡ take header_size bs
unfolding header_bytes read_header
header_bytes-read e bs h n =
    rw
      (
        version_value-version_of,
        origin_value-origin_of,
        type_value-type_of,
        slice_word bs e h 0 4 (omega arith),
        slice_word bs e h 4 2 (omega arith),
        slice_word bs e h 8 8 (omega arith),
      )
      (ap (λ x. take 4 bs ++ (slice bs 4 2 ++ x)) tail
        ∙ ap (λ x. take 4 bs ++ x) (slice_join bs 4 2 10)
        ∙ slice_join bs 0 4 12)
  where
    tail : load e (slice bs 6 1) ∷ load e (slice bs 7 1) ∷ slice bs 8 8 ≡ slice bs 6 10
    tail =
        ap₂ (λ x y. x ++ (y ++ slice bs 8 8)) (sym (slice_byte bs e h 6 (omega arith)))
          (sym (slice_byte bs e h 7 (omega arith)))
        ∙ ap (λ x. slice bs 6 1 ++ x) (slice_join bs 7 1 8)
        ∙ slice_join bs 6 1 9
