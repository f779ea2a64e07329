-- ===== src/Instances/Tests.antt =====
-- A set of two instances, and the theorems at it.
use lightningstream.Base.{◌≡◌, refl, ◌&&◌, List, [], ◌∷◌}
use lightningstream.Base.Bytes.{Bytes, equal_bytes, compare_bytes}
use lightningstream.Base.Maps.{contains, any}
use lightningstream.Instances.{InstanceSet, has_instance, clean_disappeared}
use lightningstream.Instances.Cleaning.{clean_disappeared-has_instance}

abbrev two : InstanceSet
two = (65 ∷ []) ∷ (66 ∷ []) ∷ []

-- A sort for lists that are in order.
abbrev in_order : List Bytes → List Bytes
in_order xs = xs

clean-two : clean_disappeared in_order two ((66 ∷ []) ∷ []) ≡ ((66 ∷ []) ∷ [], (65 ∷ []) ∷ [])
unfolding clean_disappeared any equal_bytes compare_bytes
clean-two = refl

clean_disappeared-has_instance_example :
    has_instance (clean_disappeared in_order two ((66 ∷ []) ∷ [])).0 (65 ∷ [])
    ≡ (has_instance two (65 ∷ []) && contains (65 ∷ []) ((66 ∷ []) ∷ []))
clean_disappeared-has_instance_example =
    clean_disappeared-has_instance in_order two ((66 ∷ []) ∷ []) (65 ∷ [])
