-- ===== src/BreakGlass/Writes.antt =====
-- What a write that break-glass allows rests on: python/src/artzain/openshell/breakglass.py.
use cognexus_tools.Common.{
  lookup, is_some, if◌then◌else◌, ◌==◌, codes, insert, insert_all, lookup-insert_all, Distinct, ℕ,
  suc, ◌≤◌, ◌<◌, ◌≡◌, refl, sym, ap, ◌∙◌, subst, false, Option, none, some, [], ◌∷◌, Dict, Text,
  Option-cases, inl, inr, some-injective, none-some_absurd, text_key,
}
use cognexus_tools.Journal.Entry.{Json}
use cognexus_tools.Journal.Operations.{Config, Journal}
use cognexus_tools.Journal.Durable.{append-Promised, Promised}
use cognexus_tools.BreakGlass.State.{Window, Turn, State}
use cognexus_tools.BreakGlass.Operations.{
  kind_write, k_window, updated, journal_append, save_window, expire, write_under, write_if_open,
  record_write, deadline_passed,
}
use cognexus_tools.BreakGlass.Windows.{expire_cases, save_window-window, save_window-journal}

module _ (j : Json) (cfg : Config) where
  abbrev pub write_append : Dict Text j.Value → Turn → Window → State j → Option ℕ × Journal j
  write_append facts t w s =
      journal_append j cfg kind_write (updated ((k_window, j.text w.id) ∷ []) facts) t s

  write_under_refused :
      (facts : Dict Text j.Value) (t : Turn) (w : Window) (s : State j)
      → (write_append facts t w s).0 ≡ none
      → (write_under j cfg facts t w s).0 ≡ none
  write_under_refused facts t w s q = rw (write_under, q) refl

  write_under_taken :
      (facts : Dict Text j.Value) (t : Turn) (w : Window) (s : State j) (n : ℕ)
      → (write_append facts t w s).0 ≡ some n
      → write_under j cfg facts t w s ≡ (
        some w.id,
        save_window j cfg t (record s {
          journal = (write_append facts t w s).1;
          window = some (record w { writes = suc w.writes });
        }),
      )
  write_under_taken facts t w s n q = rw (write_under, q) refl

  pub write_if_open_shut :
      (facts : Dict Text j.Value) (t : Turn) (s : State j)
      → s.window ≡ none
      → write_if_open j cfg facts t s ≡ (none, s)
  write_if_open_shut facts t s q = rw q refl

  pub write_if_open_there :
      (facts : Dict Text j.Value) (t : Turn) (w : Window) (s : State j)
      → s.window ≡ some w
      → write_if_open j cfg facts t s ≡ write_under j cfg facts t w s
  write_if_open_there facts t w s q = rw q refl

  -- What stands behind a write: a window that was open and whose time was not up on either clock,
  -- with the write counted, and the journal's file with an entry for it behind those that waited.
  pub record IsCovered (t : Turn) (id : Text) (s after : State j) : Type 0 where
    pub window : Window
    pub was_open : s.window ≡ some window
    pub named : id ≡ window.id
    pub opened_before : window.opened_ms ≤ t.now_ms
    pub not_over : t.now_ms < window.until_ms
    pub not_passed : deadline_passed j cfg t s.deadline ≡ false
    pub counted : after.window ≡ some (record window { writes = suc window.writes })
    pub seq : ℕ
    pub body : Dict Text j.Value
    pub journaled :
        (at_ms : ℕ) × Promised j cfg kind_write body at_ms s.journal (some seq, after.journal)

  -- What the entry's body says: the facts of the write, and the window's id unless a fact has its key.
  abbrev pub Carries : Dict Text j.Value → Text → Dict Text j.Value → Type 0
  Carries facts id body =
      (k : Text)
      → lookup k body ≡ (
          if is_some (lookup k facts)
          then lookup k facts
          else if k == codes "window"
          then some (j.text id)
          else none)

  updated-insert_all : (d w : Dict Text j.Value) → updated d w ≡ insert_all w d
  updated-insert_all d [] = refl
  updated-insert_all d ((k, v) ∷ w) = updated-insert_all (insert k v d) w

  updated-Carries :
      (facts : Dict Text j.Value) (id : Text)
      → Distinct facts
      → Carries facts id (updated ((k_window, j.text id) ∷ []) facts)
  updated-Carries facts id d k =
      ap (lookup k) (updated-insert_all ((k_window, j.text id) ∷ []) facts)
      ∙ lookup-insert_all k facts ((k_window, j.text id) ∷ []) d

  -- The same with the body as the code builds it.
  pub record_write_stands :
      (facts : Dict Text j.Value) (t u : Turn) (s : State j) (id : Text)
      → (record_write j cfg facts t u s).0 ≡ some id
      → (c : IsCovered t id s (record_write j cfg facts t u s).1) × (c.body
          ≡ updated ((k_window, j.text c.window.id) ∷ []) facts)
  unfolding record_write
  record_write_stands facts t u s id q = elim (expire_cases j cfg t s) [
    | inl shut ↦
        none-some_absurd id
          (sym (ap (λ r. r.0) (write_if_open_shut facts u (expire j cfg t s) shut)) ∙ q)
    | inr (w, there, same, before, over, passed) ↦
        elim (Option-cases (write_append facts u w s).0) [
          | inl bad ↦ none-some_absurd id (
              sym (
                ap (λ r. r.0)
                  ((ap (write_if_open j cfg facts u) same ∙ write_if_open_there facts u w s there))
                ∙ write_under_refused facts u w s bad)
              ∙ q)
          | inr (n, good) ↦
              let e =
                (ap (write_if_open j cfg facts u) same ∙ write_if_open_there facts u w s there)
                ∙ write_under_taken facts u w s n good in
              let kept =
                subst
                  (λ o.
                    Promised j cfg kind_write (updated ((k_window, j.text w.id) ∷ []) facts)
                      u.now_ms s.journal (o, (write_append facts u w s).1))
                  good
                  (append-Promised j cfg kind_write (updated ((k_window, j.text w.id) ∷ []) facts)
                    u.now_ms u.first u.second s.journal) in
              (
                record {
                  window = w;
                  was_open = there;
                  named = some-injective _ _ (sym q ∙ ap (λ r. r.0) e);
                  opened_before = before;
                  not_over = over;
                  not_passed = passed;
                  counted = ap (λ r. r.1.window) e ∙ save_window-window j cfg u _;
                  seq = n;
                  body = updated ((k_window, j.text w.id) ∷ []) facts;
                  journaled = (
                    u.now_ms,
                    subst
                        (λ k.
                          Promised j cfg kind_write (updated ((k_window, j.text w.id) ∷ []) facts)
                            u.now_ms s.journal (some n, k))
                        (sym (ap (λ r. r.1.journal) e ∙ save_window-journal j cfg u _)) kept,
                  );
                },
                refl,
              )
        ]
  ]

  -- A write that is allowed has an open window whose time is not up, and its entry in the journal's
  -- file, whose body carries every fact of the write and the window's id; no fact has a key twice.
  pub record_write-IsCovered :
      (facts : Dict Text j.Value) (t u : Turn) (s : State j) (id : Text)
      → Distinct facts
      → (record_write j cfg facts t u s).0 ≡ some id
      → (c : IsCovered t id s (record_write j cfg facts t u s).1) × Carries facts id c.body
  record_write-IsCovered facts t u s id d q =
      let (c, same) = record_write_stands facts t u s id q in
      (
        c,
        subst (Carries facts id)
            (sym (same ∙ ap (λ x. updated ((k_window, j.text x) ∷ []) facts) (sym c.named)))
            (updated-Carries facts id d),
      )
