-- ===== src/Instances.antt =====
-- syncer/instanceset.go: the instances that the sync loop still waits for. The map has only keys
-- with the value true, so the set is the list of its keys.
pub mod Cleaning
mod Tests
use lightningstream.Base.{Bool, not, List, [], ◌∷◌, if◌then◌else◌, is_empty}
use lightningstream.Base.Bytes.{Bytes, equal_bytes}
use lightningstream.Base.Maps.{filter, contains}

-- `InstanceSet`
abbrev pub InstanceSet : Type 0
InstanceSet = List Bytes

-- `Add`, `Remove`, `Done` and `Contains`
unfoldable pub add_instance : InstanceSet → Bytes → InstanceSet
unfolding contains
add_instance s name = if contains name s then s else name ∷ s

unfoldable pub remove_instance : InstanceSet → Bytes → InstanceSet
unfolding filter
remove_instance s name = filter (λ n. not (equal_bytes name n)) s

unfoldable pub is_done : InstanceSet → Bool
is_done s = is_empty s

unfoldable pub has_instance : InstanceSet → Bytes → Bool
unfolding contains
has_instance s name = contains name s

unfoldable pub remove_all : InstanceSet → List Bytes → InstanceSet
unfolding remove_instance
remove_all s [] = s
remove_all s (name ∷ names) = remove_all (remove_instance s name) names

-- `CleanDisappeared`: the set afterwards, and the instances that are removed, in the order of
-- `sort.Strings`.
unfoldable pub clean_disappeared :
    (List Bytes → List Bytes) → InstanceSet → List Bytes → InstanceSet × List Bytes
unfolding contains filter remove_all
clean_disappeared sort s seen =
    let to_delete = filter (λ name. not (contains name seen)) s in
    (remove_all s to_delete, sort to_delete)
