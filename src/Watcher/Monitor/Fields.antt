-- ===== src/Watcher/Monitor/Fields.antt =====
-- The fields that saveUpdateResults of configwatcher/zk_watcher.go sets.
use dove.Base.{
  ◌≡◌, refl, sym, ap, ◌∙◌, inl, inr, false, Option, none, some, [], ◌∷◌, arith, Bool-cases, ◌==◌,
  Bytes, bytes_beq, bytes_beq_iff, nat_eq, bytes_eq, contains, Distinct,
}
use dove.Base.Dict.{Dict, keys, lookup, insert, lookup-insert}
use dove.Watcher.Monitor.{Field, Self, Outcome, outcome_fields, assign_all}

abbrev pub or_else : Option Field → Option Field → Option Field
or_else none b = b
or_else (some a) b = some a

lookup-absent :
    (name : Bytes) (fields : Dict Bytes Field)
    → contains (keys fields) name ≡ false
    → lookup name fields ≡ none
unfolding lookup contains
lookup-absent name [] h = refl
lookup-absent name ((n, v) ∷ fields) h = ground (arith, h, lookup-absent name fields)

pub lookup-assign_all :
    (name : Bytes) (fields result : Dict Bytes Field)
    → Distinct (keys fields)
    → lookup name (assign_all fields result) ≡ or_else (lookup name fields) (lookup name result)
unfolding assign_all lookup
lookup-assign_all name [] result h = refl
lookup-assign_all name ((n, v) ∷ fields) result h =
    lookup-assign_all name fields (insert n v result) h.1
    ∙ rw (lookup-insert n name v result) (elim (Bool-cases (n == name)) [
      | inr other ↦ rw other refl
      | inl same ↦
          let e = (bytes_beq_iff n name).0 same in
          rw (same, lookup-absent name fields (ap (contains (keys fields)) (sym e) ∙ h.0)) refl
    ])

pub outcome_fields-Distinct : (me : Self) (o : Outcome) → Distinct (keys (outcome_fields me o))
unfolding outcome_fields contains bytes_beq
outcome_fields-Distinct me o = (refl, (refl, (refl, (refl, (refl, (refl, tt))))))
