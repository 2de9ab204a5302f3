-- ===== src/Payload/RoundTrip/Program.antt =====
-- src/payload.rs: what was pushed is what is read, in the same order, by `read_bytes`, `read_fd` and
-- `read_binder_ref`.
use binderbinder.Base.{
  ℕ, ◌+◌, ◌<◌, ◌≤◌, ◌≡◌, refl, sym, ap, ◌∙◌, subst, true, ◌||◌, Option, List, [], ◌∷◌,
  if◌then◌else◌, length, length-append, arith, Bool-cases, inl, inr, Run, ok, panic, Cmd, pure,
  and_then, ◌>>=◌,
}
use binderbinder.Base.Words.{usize_mod}
use binderbinder.Sys.Structs.{
  FlatObject, flat_bytes, length-flat_bytes, low_half, AllFit, flat_fields,
}
use binderbinder.Sys.Layout.{flat_binder_object, binder_fd_object}
use binderbinder.Device.{Device}
use binderbinder.Device.Driver.{Driver}
use binderbinder.Device.ObjectOrRef.{BinderObjectOrRef}
use binderbinder.Payload.Builder.{PayloadBuilder, push_bytes}
use binderbinder.Payload.Reader.{
  Reading, on_device, advance, moved, Result, success, failure, read_bytes, read_fd,
  read_binder_ref, resolve, is_fd, is_binder_ref,
}
use binderbinder.Payload.Layout.{
  pushed, push_object_lem, IsOrdered, pushed-IsOrdered, laid_out-extend,
}
use binderbinder.Payload.RoundTrip.{
  Piece, bytes_piece, flat_piece, put, put_all, Grows, put_all-Grows,
}
use binderbinder.Payload.RoundTrip.Reads.{at_part, read_bytes-put, read_object-put}

pub data Value : Type 0 where
  bytes_value : List ℕ → Value
  fd_value : ℕ → ℕ → Value
  object_value : BinderObjectOrRef → Value

abbrev pub map_result : {A B : Type 0} → (A → B) → Result A → Result B
map_result f (success a) = success (f a)
map_result f (failure e) = failure e

module _ {S : Type 0} where
  abbrev pub and_rest : Result Value → Cmd S (Result (List Value)) → Cmd S (Result (List Value))
  and_rest (failure e) rest = pure (failure e)
  and_rest (success v) rest = rest >>= λ vs. pure (map_result (◌∷◌ v) vs)

  -- One after the other, up to the first error.
  abbrev pub each : (Piece → Cmd S (Result Value)) → List Piece → Cmd S (Result (List Value))
  each f [] = pure (success [])
  each f (p ∷ ps) = f p >>= λ r. and_rest r (each f ps)

-- A run without the reader.
abbrev pub view : {A : Type 0} → Run Reading A → Run Device A
view (ok a s) = ok a s.device
view (panic s) = panic s.device

view-then :
    {A B : Type 0} (x : Run Reading A) (f : A → B)
    → view (and_then x (λ a. pure (f a))) ≡ and_then (view x) (λ a. pure (f a))
view-then (ok a s) f = refl
view-then (panic s) f = refl

after_object :
    {A : Type 0} (f : A → Value) (x : Run Device (Result A)) (end : ℕ) (s : Reading)
    (rest : Cmd Reading (Result (List Value))) (rest' : Cmd Device (Result (List Value)))
    → ((d : Device) → view (rest (record { reader = advance end s.reader; device = d })) ≡ rest' d)
    → view (
        and_then
          (and_then (and_then (on_device (λ _. x) s) (moved end)) (λ r. pure (map_result f r)))
          (λ r. and_rest r rest))
      ≡ and_then (and_then x (λ r. pure (map_result f r))) (λ r. and_rest r rest')
unfolding on_device moved
after_object f (ok (success a) d) end s rest rest' e =
    view-then (rest (record { reader = advance end s.reader; device = d })) (map_result (◌∷◌ (f a)))
    ∙ ap (λ r. and_then r (λ vs. pure (map_result (◌∷◌ (f a)) vs))) (e d)
after_object f (ok (failure w) d) end s rest rest' e = refl
after_object f (panic d) end s rest rest' e = refl

module _ (driver : Driver) where
  abbrev pub read_piece : Piece → Cmd Reading (Result Value)
  read_piece (bytes_piece xs) =
      read_bytes driver (length xs) >>= λ r. pure (map_result bytes_value r)
  read_piece (flat_piece o) =
      if is_fd o.type_
      then (read_fd >>= λ r. pure (map_result (λ f. fd_value f.0 f.1) r))
      else (read_binder_ref driver >>= λ r. pure (map_result object_value r))

  -- What a piece stands for, on the device of the reader.
  abbrev pub meaning : Piece → Cmd Device (Result Value)
  meaning (bytes_piece xs) = pure (success (bytes_value xs))
  meaning (flat_piece o) =
      if is_fd o.type_
      then pure (success (fd_value (low_half o.bits) o.cookie))
      else (resolve driver o >>= λ r. pure (map_result object_value r))

abbrev pub IsReadable : Piece → Type 0
IsReadable (bytes_piece xs) = Unit
IsReadable (flat_piece o) =
    AllFit (flat_fields o) × ((is_fd o.type_ || is_binder_ref o.type_) ≡ true)

abbrev pub AllReadable : List Piece → Type 0
AllReadable [] = Unit
AllReadable (p ∷ ps) = IsReadable p × AllReadable ps

length-put :
    (xs : List ℕ) (b : PayloadBuilder)
    → length (put (bytes_piece xs) b).data_ ≡ length b.data_ + length xs
unfolding push_bytes
length-put xs b = length-append b.data_ xs

below_end : {b c : PayloadBuilder} → Grows b c → length b.data_ ≤ length c.data_
below_end {b} {c} g = omega (arith, ap {A = List ℕ} length g.data_lem, length-append b.data_ g.more)

put-IsOrdered : (p : Piece) (b : PayloadBuilder) → IsOrdered b → IsOrdered (put p b)
unfolding push_bytes
put-IsOrdered (bytes_piece xs) b l =
    laid_out-extend 0 b.obj_offsets _ _ l (omega (arith, length-append b.data_ xs))
put-IsOrdered (flat_piece o) b l =
    subst IsOrdered (sym (push_object_lem (flat_bytes o) b))
      (pushed-IsOrdered (flat_bytes o) b (omega (arith, length-flat_bytes o)) l)

module _ (driver : Driver) (mapped : Option ℕ) (objects : List BinderObjectOrRef) where
  -- The reader after one more object.
  pub moved_lem :
      (o : FlatObject) (b c : PayloadBuilder) (d : Device)
      → record {
        reader =
            advance (length (pushed (flat_bytes o) b).data_) (at_part mapped objects d b c).reader;
        device = d;
      }
        ≡ at_part mapped objects d (pushed (flat_bytes o) b) c
  unfolding advance
  moved_lem o b c d =
      ap {B = Reading}
        (λ n. record {
          reader = record (at_part mapped objects d b c).reader {
            next_offset_index = n;
            next_data_index = length (pushed (flat_bytes o) b).data_;
          };
          device = d;
        })
        (sym (length-append b.obj_offsets _))

  pub read_fd-put :
      (o : FlatObject) (b c : PayloadBuilder) (d : Device)
      → Grows (pushed (flat_bytes o) b) c
      → AllFit (flat_fields o)
      → is_fd o.type_ ≡ true
      → read_fd (at_part mapped objects d b c)
        ≡ (on_device (pure (success (low_half o.bits, o.cookie)))
              >>= moved (length (pushed (flat_bytes o) b).data_))
            (at_part mapped objects d b c)
  unfolding read_fd binder_fd_object
  read_fd-put o b c d g fit right =
      read_object-put mapped objects d is_fd (λ x. pure (success (low_half x.bits, x.cookie))) o b c
        g fit right

  pub read_binder_ref-put :
      (o : FlatObject) (b c : PayloadBuilder) (d : Device)
      → Grows (pushed (flat_bytes o) b) c
      → AllFit (flat_fields o)
      → is_binder_ref o.type_ ≡ true
      → read_binder_ref driver (at_part mapped objects d b c)
        ≡ (on_device (resolve driver o) >>= moved (length (pushed (flat_bytes o) b).data_))
            (at_part mapped objects d b c)
  unfolding read_binder_ref flat_binder_object
  read_binder_ref-put o b c d g fit right =
      read_object-put mapped objects d is_binder_ref (resolve driver) o b c g fit right

  pub each_lem :
      (ps : List Piece) (b : PayloadBuilder) (d : Device)
      → IsOrdered b
      → AllReadable ps
      → length (put_all ps b).data_ < usize_mod
      → view (each (read_piece driver) ps (at_part mapped objects d b (put_all ps b)))
        ≡ each (meaning driver) ps d
  unfolding on_device
  each_lem [] b d l r small = refl
  each_lem (bytes_piece xs ∷ ps) b d l r small =
      let b' = put (bytes_piece xs) b in
      let g = put_all-Grows ps b' in
      let fits : length b.data_ + length xs < usize_mod =
        omega (arith, small, below_end g, length-put xs b) in
      let rest = at_part mapped objects d b' (put_all ps b') in
      rw (read_bytes-put mapped objects d driver xs b _ l g fits) (
        view-then (each (read_piece driver) ps rest) (map_result (◌∷◌ (bytes_value xs)))
        ∙ ap (λ x. and_then x (λ vs. pure (map_result (◌∷◌ (bytes_value xs)) vs)))
            (each_lem ps b' d (put-IsOrdered (bytes_piece xs) b l) r.1 small))
  each_lem (flat_piece o ∷ ps) b d l r small =
      let b' = put (flat_piece o) b in
      let c = put_all ps b' in
      let end = length (pushed (flat_bytes o) b).data_ in
      let same : b' ≡ pushed (flat_bytes o) b = push_object_lem (flat_bytes o) b in
      let g : Grows (pushed (flat_bytes o) b) c =
        subst (λ x. Grows x c) same (put_all-Grows ps b') in
      let rest : (d' : Device)
          → view (
              each (read_piece driver) ps (record {
                reader =
                    advance (length (pushed (flat_bytes o) b).data_)
                      (at_part mapped objects d b c).reader;
                device = d';
              }))
            ≡ each (meaning driver) ps d' =
        λ d'.
          ap (λ s. view (each (read_piece driver) ps s))
            (moved_lem o b c d' ∙ ap (λ x. at_part mapped objects d' x c) (sym same))
          ∙ each_lem ps b' d' (put-IsOrdered (flat_piece o) b l) r.1 small in
      elim (Bool-cases (is_fd o.type_)) [
        | inl descriptor ↦
            rw (descriptor, read_fd-put o b c d g r.0.0 descriptor)
              (after_object (λ f. fd_value f.0 f.1) (ok (success (low_half o.bits, o.cookie)) d) end
                (at_part mapped objects d b c) (each (read_piece driver) ps)
                (each (meaning driver) ps) rest)
        | inr other ↦
            let right : is_binder_ref o.type_ ≡ true =
              subst (λ t. (t || is_binder_ref o.type_) ≡ true) other r.0.1 in
            rw (other, read_binder_ref-put o b c d g r.0.0 right)
              (after_object object_value (resolve driver o d) end (at_part mapped objects d b c)
                (each (read_piece driver) ps) (each (meaning driver) ps) rest)
      ]
