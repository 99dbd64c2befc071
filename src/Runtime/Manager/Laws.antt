-- ===== src/Runtime/Manager/Laws.antt =====
-- Tracking (runtime/tracker.py) changes no answer of the wrapped manager, and counts what it finds.
use mcu.Base.{ℕ, suc, ◌≡◌, refl, ◌∙◌, ap, String, true, not, ◌&&◌, Option, none, some}
use mcu.Base.{List, [], ◌∷◌, ok, Error, is_none, arith, if◌then◌else◌, all_but_last}
use mcu.Base.{Result-cases, inl, inr, ◌==◌, string_eq}
use mcu.Models.{FilePath}
use mcu.Data.Rows.{KernelKey, kernel_key_eq}
use mcu.Services.Strategy.{path_str}
use mcu.Runtime.{Collector, Call, run, flush}
use mcu.Runtime.Counts.{hits_in, plus}
use mcu.Runtime.History.{hits_of, CallsIn, flush_counts}
use mcu.Runtime.Manager.{BaseManager, Manager, Op, Answer, file, stored, group, grouped}
use mcu.Runtime.Manager.{record_group, perform_all}

-- How many of the answers are a group.
abbrev pub groups_found : List Answer → ℕ
groups_found [] = 0
groups_found (group (ok (some g)) ∷ answers) = suc (groups_found answers)
groups_found (_ ∷ answers) = groups_found answers

module _ {S D : Type 0} where
  -- The wrapped manager alone.
  abbrev pub alone : BaseManager S D → Op D → S → Answer × S
  alone b (Op.get_file n) s = let (r, s') = b.get_file n s in (file r, s')
  alone b (Op.put v n o) s = let (r, s') = b.put v n o s in (stored r, s')
  alone b (Op.get_group n) s = let (r, s') = b.get_group n s in (group r, s')
  alone b (Op.put_group n g) s = let (r, s') = b.put_group n g s in (grouped r, s')

  abbrev pub all_alone : BaseManager S D → List (Option Error × ℕ × Op D) → S → List Answer × S
  all_alone b [] s = ([], s)
  all_alone b ((fault, now, op) ∷ ops) s =
      let (a, s') = alone b op s in let (answers, s'') = all_alone b ops s' in (a ∷ answers, s'')

  module _ (default : FilePath) (m : Manager S D) where
    -- The accesses that are recorded.
    accesses : List (Option Error × ℕ × Op D) → S → List Call
    accesses [] s = []
    accesses ((fault, now, op) ∷ ops) s =
        let (a, s') = alone m.base_manager op s in
        elim a [
          | group (ok g) ↦
              record {
                fault = fault;
                cache_key = m.full_cache_key;
                hit = not (is_none g);
                now = now;
                cache_dir = some m.cache_dir;
              }
              ∷ accesses ops s'
          | _ ↦ accesses ops s'
        ]

    tracked :
        (ops : List (Option Error × ℕ × Op D)) (s : S) (c : Collector)
        → perform_all default m ops (s, c) ≡ (
          (all_alone m.base_manager ops s).0,
          (all_alone m.base_manager ops s).1,
          run default (accesses ops s) c,
        )
    unfolding perform_all accesses run
    tracked [] s c = refl
    tracked ((fault, now, Op.get_file n) ∷ ops) s c =
        rw (tracked ops (m.base_manager.get_file n s).1 c) refl
    tracked ((fault, now, Op.put v n o) ∷ ops) s c =
        rw (tracked ops (m.base_manager.put v n o s).1 c) refl
    tracked ((fault, now, Op.put_group n g) ∷ ops) s c =
        rw (tracked ops (m.base_manager.put_group n g s).1 c) refl
    tracked ((fault, now, Op.get_group n) ∷ ops) s c =
        let s' = (m.base_manager.get_group n s).1 in
        elim (Result-cases (m.base_manager.get_group n s).0) [
          | inl (e, x) ↦ rw (x, accesses, record_group, tracked ops s' c) refl
          | inr (g, x) ↦
              rw
                (
                  x,
                  accesses,
                  record_group,
                  tracked ops s' (record_group default m fault now (ok g) c),
                )
                refl
        ]

    accesses-CallsIn :
        (ops : List (Option Error × ℕ × Op D)) (s : S)
        → CallsIn default (all_but_last m.cache_dir) (accesses ops s)
    unfolding accesses
    accesses-CallsIn [] s = tt
    accesses-CallsIn ((fault, now, Op.get_file n) ∷ ops) s = accesses-CallsIn ops _
    accesses-CallsIn ((fault, now, Op.put v n o) ∷ ops) s = accesses-CallsIn ops _
    accesses-CallsIn ((fault, now, Op.put_group n g) ∷ ops) s = accesses-CallsIn ops _
    accesses-CallsIn ((fault, now, Op.get_group n) ∷ ops) s =
        elim (Result-cases (m.base_manager.get_group n s).0) [
          | inl (e, x) ↦ rw (x, accesses) (accesses-CallsIn ops _)
          | inr (g, x) ↦ rw (x, accesses) (refl, accesses-CallsIn ops _)
        ]

    hits_of-accesses :
        (k : String) (ops : List (Option Error × ℕ × Op D)) (s : S)
        → hits_of k (accesses ops s)
          ≡ (if m.full_cache_key == k then groups_found (all_alone m.base_manager ops s).0 else 0)
    unfolding accesses
    hits_of-accesses k [] s = ground arith
    hits_of-accesses k ((fault, now, Op.get_file n) ∷ ops) s = hits_of-accesses k ops _
    hits_of-accesses k ((fault, now, Op.put v n o) ∷ ops) s = hits_of-accesses k ops _
    hits_of-accesses k ((fault, now, Op.put_group n g) ∷ ops) s = hits_of-accesses k ops _
    hits_of-accesses k ((fault, now, Op.get_group n) ∷ ops) s =
        let ih = hits_of-accesses k ops (m.base_manager.get_group n s).1 in
        elim (Result-cases (m.base_manager.get_group n s).0) [
          | inl (e, x) ↦ rw (x, accesses) ih
          | inr (none, x) ↦ rw (x, accesses) (ground (arith, ih))
          | inr (some g, x) ↦ rw (x, accesses) (ground (arith, ih))
        ]

    -- Where the collector is enabled and has nothing pending when the calls begin: the tracking
    -- manager answers every sequence of calls as the wrapped one does, and leaves it in the same state;
    -- and after a flush the counter of the kernel that the manager stands for has grown by the number
    -- of groups found, and no other counter has changed, whichever attempts to persist failed before.
    pub perform_all_lem :
        (ops : List (Option Error × ℕ × Op D)) (s : S) (c : Collector) (j : KernelKey)
        → c.pending ≡ []
        → c.enabled ≡ true
        → let (answers, s', c') = perform_all default m ops (s, c) in
          (answers ≡ (all_alone m.base_manager ops s).0)
          × (s' ≡ (all_alone m.base_manager ops s).1)
          × (hits_in j (flush none c').tables.kernels
              ≡ plus (hits_in j c.tables.kernels) (
                  if j.cache_dir == path_str (all_but_last m.cache_dir)
                    && m.full_cache_key == j.hash
                  then groups_found answers
                  else 0))
    perform_all_lem ops s c j p e =
        let (_, f) =
          flush_counts default (all_but_last m.cache_dir) j (accesses ops s) c
            (accesses-CallsIn ops s) p e in
        rw (tracked ops s c) (
          refl,
          refl,
          f
              ∙ ap (plus (hits_in j c.tables.kernels))
                  (ground (arith, hits_of-accesses j.hash ops s)),
        )
