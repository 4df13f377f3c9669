-- ===== src/Postgres/Transaction/Others.antt =====
-- Appointments that only other transactions change.
use mathlib.Core.List.{append-nil, append_assoc}
use service_scheduler.Prelude.{
  zero, suc, ◌+◌, ℕ, ◌≡◌, refl, sym, ap, ◌∙◌, List, [], ◌∷◌, ◌++◌, inl, inr, Option-cases, arith,
}
use service_scheduler.Postgres.Schema.{KeyRow, violation}
use service_scheduler.Postgres.Session.{
  Change, Server, Session, added, before, saved, take_change, take_changes, visible,
}

plus_zero : (n : ℕ) → n + 0 ≡ n
plus_zero n = omega arith

plus_suc : (n m : ℕ) → n + suc m ≡ suc (n + m)
plus_suc n m = omega arith

plus_one : (n : ℕ) → n + 1 ≡ suc n
plus_one n = omega arith

plus_assoc : (a b c : ℕ) → a + (b + c) ≡ a + b + c
plus_assoc a b c = omega arith

module _ (server : Server) where
  visible-saved : (k : KeyRow) (s : Session) → visible (take_change server (saved k) s) ≡ visible s
  unfolding take_change visible
  visible-saved k s = ground arith

  pub visible-take_change :
      (c : Change) (s t : Session)
      → visible s ≡ visible t
      → visible (take_change server c s) ≡ visible (take_change server c t)
  unfolding take_change visible
  visible-take_change (saved k) s t h = visible-saved k s ∙ h ∙ sym (visible-saved k t)
  visible-take_change (added r) s t h =
      elim (Option-cases (violation server.catalog (visible s) r)) [
        | inl n ↦
            rw (n, (ap (λ rows. violation server.catalog rows r) (sym h) ∙ n), take_change)
              (ap (λ rows. r ∷ rows) h)
        | inr (v, y) ↦
            rw (y, (ap (λ rows. violation server.catalog rows r) (sym h) ∙ y), take_change) h
      ]

  visible-take_changes :
      (cs : List Change) (s t : Session)
      → visible s ≡ visible t
      → visible (take_changes server cs s) ≡ visible (take_changes server cs t)
  unfolding take_changes
  visible-take_changes [] s t h = h
  visible-take_changes (c ∷ cs) s t h =
      visible-take_changes cs (take_change server c s) (take_change server c t)
        (visible-take_change c s t h)

  take_changes-both :
      (cs ds : List Change) (s : Session)
      → take_changes server (cs ++ ds) s ≡ take_changes server ds (take_changes server cs s)
  unfolding take_changes
  take_changes-both [] ds s = refl
  take_changes-both (c ∷ cs) ds s = take_changes-both cs ds (take_change server c s)

  -- What other transactions commit before the statements from `start` on, `n` of them.
  abbrev pub committed_before : ℕ → ℕ → List Change
  committed_before start zero = []
  committed_before start (suc n) = committed_before start n ++ (server.script (start + n)).others

  committed_before-both :
      (start n m : ℕ)
      → committed_before start (n + m) ≡ committed_before start n ++ committed_before (start + n) m
  committed_before-both start n zero =
      ap (committed_before start) (plus_zero n) ∙ sym (append-nil (committed_before start n))
  committed_before-both start n (suc m) =
      ap (committed_before start) (plus_suc n m)
      ∙ ap (λ cs. cs ++ (server.script (start + (n + m))).others) (committed_before-both start n m)
      ∙ append_assoc (committed_before start n) (committed_before (start + n) m) _
      ∙ ap
          (λ k.
            committed_before start n
            ++ (committed_before (start + n) m ++ (server.script k).others))
          (plus_assoc start n m)

  -- The appointments of `t` are those of `s` and what other transactions have committed before the
  -- statements in between, and nothing else.
  abbrev pub OnlyOthers : Session → Session → Type 0
  OnlyOthers s t =
      (n : ℕ) × (t.statements ≡ s.statements + n)
      × (visible t ≡ visible (take_changes server (committed_before s.statements n) s))

  pub OnlyOthers_refl : (s : Session) → OnlyOthers s s
  unfolding take_changes
  OnlyOthers_refl s = (0, sym (plus_zero s.statements), refl)

  pub OnlyOthers-trans : (s t u : Session) → OnlyOthers s t → OnlyOthers t u → OnlyOthers s u
  OnlyOthers-trans s t u (n, e, seen) (m, g, seen') =
      let cs = committed_before s.statements n in
      let ds = committed_before (s.statements + n) m in
      (
        n + m,
        g ∙ ap (λ k. k + m) e ∙ sym (plus_assoc s.statements n m),
        seen'
            ∙ ap (λ k. visible (take_changes server (committed_before k m) t)) e
            ∙ visible-take_changes ds t (take_changes server cs s) seen
            ∙ ap visible (sym (take_changes-both cs ds s))
            ∙ ap (λ z. visible (take_changes server z s))
                (sym (committed_before-both s.statements n m)),
      )

  pub OnlyOthers-before : (s : Session) → OnlyOthers s (before server s)
  unfolding before visible
  OnlyOthers-before s = (
    1,
    sym (plus_one s.statements),
    ap (λ k. visible (take_changes server (server.script k).others s))
        (sym (plus_zero s.statements)),
  )
