-- ===== src/Sys/ObjectType.antt =====
-- src/sys.rs: the constants of `BinderType`.
use Prim.Native.Nat.{bit_or}
use binderbinder.Base.{ℕ, ◌*◌, ◌^◌}

-- Each argument is a byte, so no shift loses a bit.
unfoldable pub b_pack_chars : ℕ → ℕ → ℕ → ℕ → ℕ
b_pack_chars c1 c2 c3 c4 = bit_or (bit_or (bit_or (c1 * 2 ^ 24) (c2 * 2 ^ 16)) (c3 * 2 ^ 8)) c4

abbrev b_type_large : ℕ
b_type_large = 0x85

unfoldable pub binder : ℕ
unfolding b_pack_chars
binder = b_pack_chars b's' b'b' b'*' b_type_large

unfoldable pub weak_binder : ℕ
unfolding b_pack_chars
weak_binder = b_pack_chars b'w' b'b' b'*' b_type_large

unfoldable pub handle : ℕ
unfolding b_pack_chars
handle = b_pack_chars b's' b'h' b'*' b_type_large

unfoldable pub weak_handle : ℕ
unfolding b_pack_chars
weak_handle = b_pack_chars b'w' b'h' b'*' b_type_large

unfoldable pub fd : ℕ
unfolding b_pack_chars
fd = b_pack_chars b'f' b'd' b'*' b_type_large

unfoldable pub fda : ℕ
unfolding b_pack_chars
fda = b_pack_chars b'f' b'd' b'a' b_type_large

unfoldable pub ptr : ℕ
unfolding b_pack_chars
ptr = b_pack_chars b'p' b't' b'*' b_type_large
