-- ===== src/Util/Examples.antt =====
-- Concrete runs of the slice helpers of util/utils.go.
use dove.Base.{◌≡◌, refl, List, [], ◌∷◌, Bytes, codes, bytes_beq, nat_eq, bytes_eq}
use dove.Util.{string_slice_unique, string_split}

abbrev names : List Bytes
names = codes "a" ∷ codes "b" ∷ codes "a" ∷ []

unique_names : string_slice_unique names ≡ codes "a" ∷ codes "b" ∷ []
unfolding string_slice_unique dove.Util.append_all_missing dove.Util.append_missing bytes_beq
unique_names = refl

split_empty : string_split [] b',' ≡ []
unfolding string_split dove.Base.Text.split dove.Base.Text.first bytes_beq
split_empty = refl
