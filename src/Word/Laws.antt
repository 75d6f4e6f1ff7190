-- ===== src/Word/Laws.antt =====
-- Words as bytes: stores and loads, and the network order on either host.
use mathlib.Core.List.{reverse-cons, reverse-reverse}
use spraybus.Prelude.{
  ℕ, zero, suc, ◌+◌, ◌*◌, ◌/◌, ◌%◌, ◌^◌, ◌<◌, ◌≡◌, refl, sym, ap, ◌∙◌, List, [], ◌∷◌, reverse,
  arith, length, length-reverse, All, All-append, subst,
}
use spraybus.Word.{
  Endian, little, big, IsByte, le_bytes, of_le, store, load, byteswap, host_to_network64,
  network_to_host64, Fits,
}

-- A uint64_t is a word of eight bytes.
pub Fits-word64 : {x : ℕ} → x < 2 ^ 64 → Fits 8 x
Fits-word64 h = omega arith

pub word64-Fits : {x : ℕ} → Fits 8 x → x < 2 ^ 64
word64-Fits h = omega arith

of_le-le_bytes : (w x : ℕ) → Fits w x → of_le (le_bytes w x) ≡ x
unfolding of_le le_bytes
of_le-le_bytes zero x h = sym h
of_le-le_bytes (suc w) x h = omega (arith, of_le-le_bytes w (x / 256) h)

length-le_bytes : (w x : ℕ) → length (le_bytes w x) ≡ w
unfolding le_bytes
length-le_bytes zero x = refl
length-le_bytes (suc w) x = ap suc (length-le_bytes w (x / 256))

le_bytes-IsByte : (w x : ℕ) → All IsByte (le_bytes w x)
unfolding le_bytes
le_bytes-IsByte zero x = tt
le_bytes-IsByte (suc w) x = (omega arith, le_bytes-IsByte w (x / 256))

-- A number split at its lowest byte.
mod-byte : (b r : ℕ) → IsByte b → (b + 256 * r) % 256 ≡ b
mod-byte b r h = omega arith

div-byte : (b r : ℕ) → IsByte b → (b + 256 * r) / 256 ≡ r
div-byte b r h = omega arith

le_bytes-of_le : (bs : List ℕ) → All IsByte bs → le_bytes (length bs) (of_le bs) ≡ bs
unfolding of_le le_bytes
le_bytes-of_le [] h = refl
le_bytes-of_le (b ∷ bs) h =
    rw (mod-byte b (of_le bs) h.0, div-byte b (of_le bs) h.0) (ap (◌∷◌ b) (le_bytes-of_le bs h.1))

of_le-Fits : (bs : List ℕ) → All IsByte bs → Fits (length bs) (of_le bs)
unfolding of_le
of_le-Fits [] h = refl
of_le-Fits (b ∷ bs) h =
    subst (Fits (length bs)) (sym (div-byte b (of_le bs) h.0)) (of_le-Fits bs h.1)

reverse-IsByte : (bs : List ℕ) → All IsByte bs → All IsByte (reverse bs)
reverse-IsByte [] h = tt
reverse-IsByte (b ∷ bs) h =
    rw (reverse-cons b bs)
      (All-append IsByte (reverse bs) (b ∷ []) (reverse-IsByte bs h.1) (h.0, tt))

pub length-store : (e : Endian) (w x : ℕ) → length (store e w x) ≡ w
unfolding store
length-store little w x = length-le_bytes w x
length-store big w x = length-reverse (le_bytes w x) ∙ length-le_bytes w x

pub store-IsByte : (e : Endian) (w x : ℕ) → All IsByte (store e w x)
unfolding store
store-IsByte little w x = le_bytes-IsByte w x
store-IsByte big w x = reverse-IsByte (le_bytes w x) (le_bytes-IsByte w x)

pub load-store : (e : Endian) (w x : ℕ) → Fits w x → load e (store e w x) ≡ x
unfolding load store
load-store little w x h = of_le-le_bytes w x h
load-store big w x h = rw reverse-reverse (of_le-le_bytes w x h)

pub store-load : (e : Endian) (bs : List ℕ) → All IsByte bs → store e (length bs) (load e bs) ≡ bs
unfolding load store
store-load little bs h = le_bytes-of_le bs h
store-load big bs h =
    rw (← length-reverse bs, le_bytes-of_le (reverse bs) (reverse-IsByte bs h)) (reverse-reverse bs)

pub load-Fits : (e : Endian) (bs : List ℕ) → All IsByte bs → Fits (length bs) (load e bs)
unfolding load
load-Fits little bs h = of_le-Fits bs h
load-Fits big bs h = rw (← length-reverse bs) (of_le-Fits (reverse bs) (reverse-IsByte bs h))

length-swapped : (w x : ℕ) → length (reverse (le_bytes w x)) ≡ w
length-swapped w x = length-reverse (le_bytes w x) ∙ length-le_bytes w x

swapped-IsByte : (w x : ℕ) → All IsByte (reverse (le_bytes w x))
swapped-IsByte w x = reverse-IsByte (le_bytes w x) (le_bytes-IsByte w x)

le_bytes-byteswap : (w x : ℕ) → le_bytes w (byteswap w x) ≡ reverse (le_bytes w x)
le_bytes-byteswap w x =
    subst (λ n. le_bytes n (byteswap w x) ≡ reverse (le_bytes w x)) (length-swapped w x)
      (unfold byteswap in le_bytes-of_le (reverse (le_bytes w x)) (swapped-IsByte w x))

byteswap-Fits : (w x : ℕ) → Fits w (byteswap w x)
byteswap-Fits w x =
    subst (λ n. Fits n (byteswap w x)) (length-swapped w x)
      (unfold byteswap in of_le-Fits (reverse (le_bytes w x)) (swapped-IsByte w x))

byteswap-byteswap : (w x : ℕ) → Fits w x → byteswap w (byteswap w x) ≡ x
byteswap-byteswap w x h =
    swap_of (byteswap w x)
    ∙ ap (λ bs. of_le (reverse bs)) (le_bytes-byteswap w x)
    ∙ ap of_le (reverse-reverse (le_bytes w x))
    ∙ of_le-le_bytes w x h
  where
    swap_of : (y : ℕ) → byteswap w y ≡ of_le (reverse (le_bytes w y))
    swap_of y = unfold byteswap in refl

-- A word in network order lies in memory most significant byte first, on either host.
pub store-host_to_network64 :
    (e : Endian) (x : ℕ) → store e 8 (host_to_network64 e x) ≡ store big 8 x
unfolding host_to_network64
store-host_to_network64 little x = unfold store in le_bytes-byteswap 8 x
store-host_to_network64 big x = refl

pub host_to_network64-Fits : (e : Endian) (x : ℕ) → Fits 8 x → Fits 8 (host_to_network64 e x)
unfolding host_to_network64
host_to_network64-Fits little x h = byteswap-Fits 8 x
host_to_network64-Fits big x h = h

pub network_to_host64-host_to_network64 :
    (e : Endian) (x : ℕ) → Fits 8 x → network_to_host64 e (host_to_network64 e x) ≡ x
unfolding network_to_host64 host_to_network64
network_to_host64-host_to_network64 little x h = byteswap-byteswap 8 x h
network_to_host64-host_to_network64 big x h = refl

-- What a host reads from a field in network order is the field's big-endian value.
pub network_to_host64-load :
    (e : Endian) (bs : List ℕ)
    → length bs ≡ 8
    → All IsByte bs
    → network_to_host64 e (load e bs) ≡ load big bs
unfolding network_to_host64 host_to_network64
network_to_host64-load little bs n h =
    unfold byteswap load in
    ap (λ k. of_le (reverse (le_bytes k (of_le bs)))) (sym n)
    ∙ ap (λ cs. of_le (reverse cs)) (le_bytes-of_le bs h)
network_to_host64-load big bs n h = refl
