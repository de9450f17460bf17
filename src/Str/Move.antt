-- ===== src/Str/Move.antt =====
-- `memmove` moves the bytes that were there before, also where the regions overlap.
use xmu_learning_os.Base.{
  Bytes, arith, copy, if_both, ltb, suc, update, zero, ℕ, ◌&&◌, ◌+◌, ◌<◌, ◌∙◌, ◌≡◌, ◌≤◌, ◌⊎◌,
}
use xmu_learning_os.Str.{memmove, move_down, move_up}

move_up_lem :
    (n d s : ℕ) (m : Bytes) (a : ℕ) → (d ≤ s) ⊎ (s + n ≤ d) → move_up n d s m a ≡ copy m d m s n a
unfolding move_up copy
move_up_lem zero d s m a h = ground arith
move_up_lem (suc n) d s m a h =
    let ih = move_up_lem n (d + 1) (s + 1) (update m d (m s)) a (ground arith) in ground arith

move_down_lem : (n d s : ℕ) (m : Bytes) (a : ℕ) → s ≤ d → move_down n d s m a ≡ copy m d m s n a
unfolding move_down copy
move_down_lem zero d s m a h = ground arith
move_down_lem (suc n) d s m a h =
    let ih = move_down_lem n d s (update m (d + n) (m (s + n))) a h in ground arith

memmove-copy : (d s n : ℕ) (m : Bytes) (a : ℕ) → memmove d s n m a ≡ copy m d m s n a
unfolding memmove
memmove-copy d s n m a =
    if_both (λ r. r a ≡ copy m d m s n a) (ltb s d && ltb d (s + n)) (move_down n d s m)
      (move_up n d s m) (λ t. move_down_lem n d s m a (ground arith))
      (λ f. move_up_lem n d s m a (ground arith))

-- Each byte of the destination is the one that stood at its place in the source before the call,
-- whether the regions overlap or not, and every other byte stays.
pub memmove_lem :
    (d s n : ℕ) (m : Bytes)
    → ((k : ℕ) → k < n → memmove d s n m (d + k) ≡ m (s + k))
      × ((a : ℕ) → (a < d) ⊎ (d + n ≤ a) → memmove d s n m a ≡ m a)
unfolding copy
memmove_lem d s n m = (
  λ k l. memmove-copy d s n m (d + k) ∙ ground arith,
  λ a h. memmove-copy d s n m a ∙ ground arith,
)
