-- ===== src/Watcher/Local/Twice.antt =====
-- What retryAddFaildDirs of configwatcher/local_watcher.go loses when two directories are back.
use dove.Base.{
  suc, ◌+◌, ◌≡◌, sym, ap, ◌∙◌, Bool, true, false, List, [], ◌∷◌, ◌++◌, append_assoc, arith, length,
  drop, length-append, All, All-append, Bytes, nat_eq, bytes_eq,
}
use dove.Watcher.Local.{Slice, array, retry_loop, retry_add_faild_dirs, System, addable, last_of}
use dove.Watcher.Local.Retry.{
  IsDown, step_up, read_at_lem, idle, first_back, del_first, del_later, last_of-IsDown, drop_both,
}

module _ (p : Bytes → Bool) (b zs a : List Bytes) (x y z : Bytes) where
  abbrev start_state : Slice
  start_state = record { before = b; elements = x ∷ y ∷ z ∷ zs; after = a }

  abbrev end_state : Slice
  end_state = record { before = b ++ x ∷ []; elements = y ∷ zs; after = last_of z zs ∷ a }

  -- What stands behind the first two elements at the end.
  behind : drop (length b + 2) (array end_state) ≡ (zs ++ last_of z zs ∷ []) ++ a
  unfolding array
  behind =
      ap (drop (length b + 2)) (append_assoc b (x ∷ []) ((y ∷ zs) ++ last_of z zs ∷ a))
      ∙ drop_both b (x ∷ y ∷ []) (zs ++ (last_of z zs ∷ a))
      ∙ sym (append_assoc zs (last_of z zs ∷ []) a)

  second :
      drop
        (length b + 1)
        (array (record { before = b ++ x ∷ []; elements = y ∷ z ∷ zs; after = a }))
      ≡ y ∷ (z ∷ (zs ++ a))
  unfolding array
  second =
      ap (drop (length b + 1)) (append_assoc b (x ∷ []) ((y ∷ z ∷ zs) ++ a))
      ∙ drop_both b (x ∷ []) (y ∷ (z ∷ (zs ++ a)))

  two_back :
      p x ≡ true
      → p y ≡ true
      → p z ≡ false
      → All (IsDown p) zs
      → retry_loop p (suc (suc (suc (length zs)))) 0 (length b) start_state
        ≡ (x ∷ y ∷ [], end_state)
  two_back hx hy hz h =
      let s1 : Slice = record { before = b ++ x ∷ []; elements = y ∷ z ∷ zs; after = a } in
      let n = length b in
      let l = zs ++ last_of z zs ∷ [] in
      first_back p b [] (y ∷ z ∷ zs) a x tt hx
      ∙ ap
          (λ s. (
            x ∷ (retry_loop p (suc (suc (length zs))) 1 n s).0,
            (retry_loop p (suc (suc (length zs))) 1 n s).1,
          ))
          (del_first b (y ∷ z ∷ zs) a x)
      ∙ ap (λ r. (x ∷ r.0, r.1))
          (step_up p (suc (length zs)) 1 n s1 y
              (read_at_lem (n + 1) (array s1) (z ∷ (zs ++ a)) y second) hy
            ∙ ap
                (λ s. (
                  y ∷ (retry_loop p (suc (length zs)) 2 n s).0,
                  (retry_loop p (suc (length zs)) 2 n s).1,
                ))
                (del_later (b ++ x ∷ []) [] zs a y z)
            ∙ ap (λ k. (y ∷ (retry_loop p k 2 n end_state).0, (retry_loop p k 2 n end_state).1))
                (omega (arith, length-append {0} zs (last_of z zs ∷ [])))
            ∙ ap (λ r. (y ∷ r.0, r.1))
                (idle p l a 2 n end_state behind (
                  All-append (IsDown p) zs (last_of z zs ∷ []) h
                    (last_of-IsDown p z zs (hz, h), tt))))

-- When the first two directories can be added in one round and no other one can, the round adds both,
-- forgets the third, which is never tried again, and keeps the second, which it added.
retry_add_faild_dirs-two :
    (sys : System) (b zs a : List Bytes) (x y z : Bytes)
    → addable sys x ≡ true
    → addable sys y ≡ true
    → addable sys z ≡ false
    → All (IsDown (addable sys)) zs
    → let r =
        retry_add_faild_dirs sys (record { before = b; elements = x ∷ y ∷ z ∷ zs; after = a }) in
      (r.0 ≡ x ∷ y ∷ []) × (r.2.elements ≡ y ∷ zs)
unfolding retry_add_faild_dirs
retry_add_faild_dirs-two sys b zs a x y z hx hy hz h =
    let e = two_back (addable sys) b zs a x y z hx hy hz h in
    (ap (λ r. r.0) e, ap (λ r. r.1.elements) e)
