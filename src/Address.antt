-- ===== src/Address.antt =====
-- internal/address/address.go: splitting "local@domain".
pub mod Laws
use mailroom.Prelude.{
  ℕ, zero, suc, ◌+◌, Text, Option, none, some, List, [], ◌∷◌, Bool, true, false, ◌||◌, ◌==◌, nat_eq,
  if◌then◌else◌, length, take, drop,
}

-- strings.LastIndexByte; `none` stands for -1.
unfoldable pub last_index_byte : Text → ℕ → Option ℕ
last_index_byte [] c = none
last_index_byte (d ∷ s) c = elim (last_index_byte s c) [
  | some i ↦ some (suc i)
  | none ↦ if d == c then some 0 else none
]

-- `none` stands for `"", "", false`.
unfoldable pub split : Text → Option (Text × Text)
unfolding take drop
split addr = elim (last_index_byte addr b'@') [
  | none ↦ none
  | some i ↦
      if i == 0 || (i + 1) == length addr then none else some (take i addr, drop (suc i) addr)
]
