-- ===== src/Sys/Structs.antt =====
-- src/sys.rs: structs as the bytes that cross the boundary, field by field. The padding inside a
-- union is part of the field's number, and holds anything.
use binderbinder.Base.{
  ℕ, ◌+◌, ◌*◌, ◌%◌, ◌^◌, ◌<◌, ◌≡◌, refl, ap, List, [], ◌∷◌, ◌++◌, arith, length, take, drop,
  length-append, take-append_of_length, drop-append_of_length,
}
use binderbinder.Base.Bytes.{to_bytes, from_bytes, length-to_bytes, from_bytes-to_bytes, pow256}

-- A struct with no padding between its fields: widths and values.
unfoldable pub encode : List (ℕ × ℕ) → List ℕ
encode [] = []
encode ((w, x) ∷ fs) = to_bytes w x ++ encode fs

unfoldable pub decode : List ℕ → List ℕ → List ℕ
decode [] bytes = []
decode (w ∷ ws) bytes = from_bytes (take w bytes) ∷ decode ws (drop w bytes)

abbrev pub widths : List (ℕ × ℕ) → List ℕ
widths [] = []
widths ((w, x) ∷ fs) = w ∷ widths fs

abbrev pub values : List (ℕ × ℕ) → List ℕ
values [] = []
values ((w, x) ∷ fs) = x ∷ values fs

abbrev pub AllFit : List (ℕ × ℕ) → Type 0
AllFit [] = Unit
AllFit ((w, x) ∷ fs) = (x < pow256 w) × AllFit fs

abbrev pub sum_widths : List (ℕ × ℕ) → ℕ
sum_widths [] = 0
sum_widths ((w, x) ∷ fs) = w + sum_widths fs

pub length-encode : (fs : List (ℕ × ℕ)) → length (encode fs) ≡ sum_widths fs
unfolding encode
length-encode [] = refl
length-encode ((w, x) ∷ fs) =
    omega (arith, length-append (to_bytes w x) (encode fs), length-to_bytes w x, length-encode fs)

pub decode-encode : (fs : List (ℕ × ℕ)) → AllFit fs → decode (widths fs) (encode fs) ≡ values fs
unfolding encode decode
decode-encode [] h = refl
decode-encode ((w, x) ∷ fs) h =
    let front : take w (to_bytes w x ++ encode fs) ≡ to_bytes w x =
      take-append_of_length w (to_bytes w x) (encode fs) (length-to_bytes w x) in
    let back : drop w (to_bytes w x ++ encode fs) ≡ encode fs =
      drop-append_of_length w (to_bytes w x) (encode fs) (length-to_bytes w x) in
    rw (front, back, from_bytes-to_bytes w x h.0) (ap (◌∷◌ x) (decode-encode fs h.1))

-- `FlatBinderObject`, and `BinderFdObject`, which has the same fields: `bits` is the union of an
-- address of 8 bytes and a handle or file descriptor of 4.
pub record FlatObject : Type 0 where
  pub type_ : ℕ
  pub flags : ℕ
  pub bits : ℕ
  pub cookie : ℕ

abbrev pub flat_fields : FlatObject → List (ℕ × ℕ)
flat_fields o = (4, o.type_) ∷ (4, o.flags) ∷ (8, o.bits) ∷ (8, o.cookie) ∷ []

unfoldable pub flat_bytes : FlatObject → List ℕ
unfolding encode
flat_bytes o = encode (flat_fields o)

-- `ptr::read_unaligned` at that type.
of_values : List ℕ → FlatObject
of_values (t ∷ f ∷ b ∷ c ∷ []) = record { type_ = t; flags = f; bits = b; cookie = c }
of_values _ = record { type_ = 0; flags = 0; bits = 0; cookie = 0 }

unfoldable pub read_flat : List ℕ → FlatObject
unfolding of_values decode
read_flat bytes = of_values (decode (4 ∷ 4 ∷ 8 ∷ 8 ∷ []) bytes)

pub length-flat_bytes : (o : FlatObject) → length (flat_bytes o) ≡ 24
unfolding flat_bytes
length-flat_bytes o = length-encode (flat_fields o)

pub read_flat-flat_bytes : (o : FlatObject) → AllFit (flat_fields o) → read_flat (flat_bytes o) ≡ o
unfolding read_flat flat_bytes
read_flat-flat_bytes o h = ap of_values (decode-encode (flat_fields o) h)

-- The 4-byte member of the union, and the union with that member set.
abbrev pub low_half : ℕ → ℕ
low_half bits = bits % 2 ^ 32

abbrev pub with_low : ℕ → ℕ → ℕ
with_low padding x = x + padding * 2 ^ 32
