-- ===== src/AutomatonRecord.antt =====
-- lib/automaton_record.cpp: what the model keeps of one automaton. A pointer to a record is the
-- aid of the record, since the model holds one record for each aid in use.
use ioa.Prelude.{ℕ, Bool, List, [], ◌∷◌, Option, none, some, is_some}
use ioa.FinSet
use ioa.FinMap

-- An automaton object: its address, and the answers of dynamic_cast to each class.
pub record Instance : Type 0 where
  pub address : ℕ
  pub is_a : ℕ → Bool

pub record AutomatonRecord : Type 0 where
  pub instance_of : Instance
  pub aid : ℕ
  pub children : List (ℕ × ℕ)
  pub key : ℕ
  pub parent : Option ℕ
  pub bind_keys : List ℕ

unfoldable pub new_record : Instance → ℕ → AutomatonRecord
new_record i aid = record {
  instance_of = i;
  aid = aid;
  children = [];
  key = 0;
  parent = none;
  bind_keys = [];
}

unfoldable pub create_key_exists : AutomatonRecord → ℕ → Bool
unfolding FinMap.lookup
create_key_exists r key = is_some (FinMap.lookup key r.children)

unfoldable pub get_child : AutomatonRecord → ℕ → Option ℕ
unfolding FinMap.lookup
get_child r key = FinMap.lookup key r.children

abbrev pub first : List (ℕ × ℕ) → Option (ℕ × ℕ)
first [] = none
first (c ∷ m) = some c

-- The null pair is `none`.
unfoldable pub get_first_child : AutomatonRecord → Option (ℕ × ℕ)
get_first_child r = first r.children

-- The map's part of `add_child`, which then tells the parent.
unfoldable pub add_child : ℕ → ℕ → AutomatonRecord → AutomatonRecord
unfolding FinMap.insert
add_child key child r = record r { children = FinMap.insert key child r.children }

unfoldable pub remove_child : ℕ → AutomatonRecord → AutomatonRecord
unfolding FinMap.erase
remove_child key r = record r { children = FinMap.erase key r.children }

unfoldable pub set_parent : ℕ → Option ℕ → AutomatonRecord → AutomatonRecord
set_parent key parent r = record r { key = key; parent = parent }

unfoldable pub bind_key_exists : AutomatonRecord → ℕ → Bool
unfolding FinSet.contains
bind_key_exists r key = FinSet.contains key r.bind_keys

unfoldable pub add_bind_key : ℕ → AutomatonRecord → AutomatonRecord
unfolding FinSet.insert
add_bind_key key r = record r { bind_keys = FinSet.insert key r.bind_keys }

unfoldable pub remove_bind_key : ℕ → AutomatonRecord → AutomatonRecord
unfolding FinSet.erase
remove_bind_key key r = record r { bind_keys = FinSet.erase key r.bind_keys }
