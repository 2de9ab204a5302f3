-- ===== src/Sys/Layout.antt =====
-- src/sys.rs: sizes of the structs that cross the ioctl boundary.
use Prim.Native.Nat.{max}
use binderbinder.Base.{ℕ, ◌+◌, ◌*◌, ◌/◌, ◌-◌, ◌≡◌, refl, List, [], ◌∷◌}

-- Size and alignment of a field.
pub record Field : Type 0 where
  pub size : ℕ
  pub align : ℕ

abbrev scalar : ℕ → Field
scalar n = record { size = n; align = n }

abbrev pub u32 : Field
u32 = scalar 4

abbrev pub usize : Field
usize = scalar 8

round_up : ℕ → ℕ → ℕ
round_up n a = (n + a - 1) / a * a

-- The end of the last field, each at the next multiple of its alignment.
fields_end : ℕ → List Field → ℕ
unfolding round_up
fields_end n [] = n
fields_end n (f ∷ fs) = fields_end (round_up n f.align + f.size) fs

max_align : List Field → ℕ
max_align [] = 1
max_align (f ∷ fs) = max f.align (max_align fs)

-- `repr(C)`: the size is rounded up to the alignment.
unfoldable pub repr_c : List Field → Field
unfolding fields_end max_align round_up
repr_c fs = record { size = round_up (fields_end 0 fs) (max_align fs); align = max_align fs }

-- `repr(C, packed)`.
sum_sizes : List Field → ℕ
sum_sizes [] = 0
sum_sizes (f ∷ fs) = f.size + sum_sizes fs

unfoldable pub packed : List Field → Field
unfolding sum_sizes
packed fs = record { size = sum_sizes fs; align = 1 }

unfoldable pub binder_object_header : Field
unfolding repr_c
binder_object_header = repr_c (u32 ∷ [])

unfoldable pub flat_binder_object : Field
unfolding repr_c binder_object_header
flat_binder_object = repr_c (binder_object_header ∷ u32 ∷ usize ∷ usize ∷ [])

unfoldable pub binder_fd_object : Field
unfolding repr_c binder_object_header
binder_fd_object = repr_c (binder_object_header ∷ u32 ∷ usize ∷ usize ∷ [])

unfoldable pub binder_buffer_object : Field
unfolding repr_c binder_object_header
binder_buffer_object = repr_c (binder_object_header ∷ u32 ∷ usize ∷ usize ∷ usize ∷ usize ∷ [])

unfoldable pub binder_fd_array_object : Field
unfolding repr_c binder_object_header
binder_fd_array_object = repr_c (binder_object_header ∷ u32 ∷ usize ∷ usize ∷ usize ∷ [])

unfoldable pub binder_transaction_data : Field
unfolding repr_c
binder_transaction_data =
    repr_c
      (usize ∷ usize ∷ u32 ∷ u32 ∷ u32 ∷ u32 ∷ usize ∷ usize ∷ repr_c (usize ∷ usize ∷ []) ∷ [])

unfoldable pub binder_transaction_data_sec_ctx : Field
unfolding repr_c binder_transaction_data
binder_transaction_data_sec_ctx = repr_c (binder_transaction_data ∷ usize ∷ [])

unfoldable pub binder_ptr_cookie : Field
unfolding repr_c
binder_ptr_cookie = repr_c (usize ∷ usize ∷ [])

unfoldable pub binder_priority_ptr_cookie : Field
unfolding repr_c
binder_priority_ptr_cookie = repr_c (u32 ∷ usize ∷ usize ∷ [])

unfoldable pub binder_handle_cookie : Field
unfolding packed
binder_handle_cookie = packed (u32 ∷ usize ∷ [])

unfoldable pub binder_frozen_state_info : Field
unfolding repr_c
binder_frozen_state_info = repr_c (usize ∷ u32 ∷ u32 ∷ [])

sizes :
    (flat_binder_object.size ≡ 24)
    × (binder_fd_object.size ≡ 24)
    × (binder_buffer_object.size ≡ 40)
    × (binder_fd_array_object.size ≡ 32)
    × (binder_transaction_data.size ≡ 64)
    × (binder_transaction_data_sec_ctx.size ≡ 72)
    × (binder_priority_ptr_cookie.size ≡ 24)
    × (binder_handle_cookie.size ≡ 12)
    × (binder_frozen_state_info.size ≡ 16)
unfolding flat_binder_object binder_fd_object binder_buffer_object binder_fd_array_object
    binder_transaction_data binder_transaction_data_sec_ctx binder_priority_ptr_cookie
    binder_handle_cookie binder_frozen_state_info
sizes = (refl, refl, refl, refl, refl, refl, refl, refl, refl)
