-- ===== src/Pressure/Picker.antt =====
-- `ValidateOperations` and `picker` (internal/pressure/engine.go).
pub mod Draws
use dizzy.Prelude.{
  ℕ, zero, suc, ◌+◌, ◌-◌, Bool, true, false, not, if◌then◌else◌, ltb, ◌==◌, String, knows, List, [],
  ◌∷◌, map, length, ℤ, pos, negsuc, Verdict, valid, invalid, ◌>>◌, refuse_if,
}
use dizzy.Pressure.Config.{max_int64}

-- `Do` is the cloud's: only whether it is given matters here.
pub record Operation : Type 0 where
  pub name : String
  pub weight : ℤ
  pub has_do : Bool

pub data OperationError : Type 0 where
  no_operations : OperationError
  no_do : String → OperationError
  negative_weight : String → OperationError
  listed_twice : String → OperationError
  weights_overflow : OperationError
  no_weight : OperationError

-- The loop: the names so far and their total.
unfoldable pub check_operations : List String → ℕ → List Operation → Verdict OperationError
check_operations seen total [] = refuse_if (total == 0) no_weight
check_operations seen total (op ∷ ops) =
    refuse_if (not op.has_do) (no_do op.name) >> (elim op.weight [
      | negsuc w ↦ invalid (negative_weight op.name)
      | pos w ↦
          refuse_if (knows seen op.name) (listed_twice op.name)
          >> refuse_if (ltb (max_int64 - total) w) weights_overflow
          >> check_operations (op.name ∷ seen) (total + w) ops
    ])

unfoldable pub validate_operations : List Operation → Verdict OperationError
unfolding check_operations
validate_operations [] = invalid no_operations
validate_operations (op ∷ ops) = check_operations [] 0 (op ∷ ops)

abbrev pub weight_of : Operation → ℕ
weight_of op = elim op.weight [ pos w ↦ w | negsuc w ↦ 0 ]

-- `cum`: the sums of the weights up to each operation.
unfoldable pub cums : ℕ → List Operation → List ℕ
cums total [] = []
cums total (op ∷ ops) = (total + weight_of op) ∷ cums (total + weight_of op) ops

unfoldable pub total_weight : List Operation → ℕ
total_weight [] = 0
total_weight (op ∷ ops) = weight_of op + total_weight ops

-- `sort.Search` over `cum[i] > n`: the first index that passes, or the length.
unfoldable pub search : ℕ → List ℕ → ℕ
search n [] = 0
search n (c ∷ cs) = let rest = search n cs in if ltb n c then 0 else suc rest

-- `pick`, where `n` is the number drawn from [0, total).
unfoldable pub pick : List Operation → ℕ → ℕ
unfolding cums search
pick ops n = search n (cums 0 ops)
