-- ===== src/Engine/Reclaiming.antt =====
-- router/process_engine.py and router/shm_transport.py: which ingest directories an engine leaves in
-- shared memory.
use synno_db.Base.{
  String, ◌≡◌, refl, sym, ◌∙◌, ap, ◌⊎◌, inl, inr, true, false, none, some, List, [], ◌∷◌,
  Bool-cases, Option-cases, arith, str_eq, eq_iff,
}
use synno_db.Base.Dict.{StrSet, contains, add, discard, contains-add, contains-discard}
use synno_db.Python.{PythonOps}
use synno_db.Engine.Process.{Batch}
use synno_db.Engine.HotLoad.{
  Host, Staging, HotLoad, sweep_ingest_orphans, check_shm_budget, drop_prior, ingest_name, stage,
  ingest, run_hot, load_hot, close_hot,
}
use synno_db.Engine.Orphans.{sweep-contains}

-- A call on an engine of the shared-memory plane, with what it meets.
pub data Call : Type 0 where
  ingests : Host → Staging → Call
  runs : PythonOps → String → Batch → Call
  loads : Batch → Call
  closes : Call

unfoldable pub apply : Call → HotLoad → StrSet → HotLoad × StrSet
unfolding ingest run_hot load_hot close_hot
apply (ingests host s) e dirs = let out = ingest host s e dirs in (out.1, out.2)
apply (runs py req_id b) e dirs = ((run_hot py req_id b e).1, dirs)
apply (loads b) e dirs = ((load_hot b e).1, dirs)
apply closes e dirs = close_hot e dirs

unfoldable pub apply_all : List Call → HotLoad → StrSet → HotLoad × StrSet
unfolding apply
apply_all [] e dirs = (e, dirs)
apply_all (c ∷ cs) e dirs = let (e', dirs') = apply c e dirs in apply_all cs e' dirs'

-- Each directory was there before, or is the engine's current one; and the engine calls itself
-- loaded only with a directory.
pub record Reclaimed (before : StrSet) (e : HotLoad) (dirs : StrSet) : Type 0 where
  pub owned :
      (d : String) → contains dirs d ≡ true → (contains before d ≡ true) ⊎ (e.ingest_dir ≡ some d)
  pub staged : e.loaded ≡ true → (d : String) × (e.ingest_dir ≡ some d)

module _ (before : StrSet) where
  -- Without the directory that the engine owned, what is left was there before.
  discard-before :
      (e : HotLoad) (own : String) (dirs : StrSet) (d : String)
      → Reclaimed before e dirs
      → e.ingest_dir ≡ some own
      → contains (discard dirs own) d ≡ true
      → contains before d ≡ true
  discard-before e own dirs d r owns h = elim (Bool-cases (str_eq own d)) [
    | inl same ↦
        let clash : false ≡ true = rw (contains-discard dirs own d, same) at h in absurd (cc)
    | inr other ↦ elim (r.owned d (rw (contains-discard dirs own d, other) at h)) [
      | inl was ↦ was
      | inr mine ↦
          let e' : own ≡ d = cc in
          let same : str_eq own d ≡ true = ground (arith, eq_iff own d) in
          let clash : false ≡ true = sym other ∙ same in absurd (cc)
    ]
  ]

  drop_prior-Reclaimed :
      (e : HotLoad) (dirs : StrSet)
      → Reclaimed before e dirs
      → Reclaimed before (drop_prior e dirs).0 (drop_prior e dirs).1
        × ((drop_prior e dirs).0.ingest_dir ≡ none)
  unfolding drop_prior
  drop_prior-Reclaimed e dirs r = elim (Option-cases e.ingest_dir) [
    | inl unowned ↦ rw (unowned, drop_prior) (r, unowned)
    | inr (own, owns) ↦
        rw (owns, drop_prior)
          (
            record {
              owned = λ d h. inl (discard-before e own dirs d r owns h);
              staged = λ loaded. absurd (cc);
            },
            refl,
          )
  ]

  sweep-Reclaimed :
      (host : Host) (e : HotLoad) (dirs : StrSet)
      → Reclaimed before e dirs
      → Reclaimed before e (sweep_ingest_orphans host dirs)
  sweep-Reclaimed host e dirs r = record {
    owned = λ d h. r.owned d (sweep-contains host dirs d h);
    staged = r.staged;
  }

  stage-Reclaimed :
      (host : Host) (s : Staging) (e : HotLoad) (dirs : StrSet)
      → Reclaimed before e dirs
      → e.ingest_dir ≡ none
      → Reclaimed before (stage host s e dirs).1 (stage host s e dirs).2
  unfolding stage
  stage-Reclaimed host s e dirs r unowned =
      let dir : String = ingest_name host s in
      let was_before : (d : String) → contains dirs d ≡ true → contains before d ≡ true =
        λ d h. elim (r.owned d h) [ inl was ↦ was | inr mine ↦ absurd (cc (mine, unowned)) ] in
      elim (Option-cases s.write_error) [
        | inl calm ↦
            rw (calm, stage)
              (record {
                owned = λ d h. elim (Bool-cases (str_eq dir d)) [
                  | inl same ↦ inr (ap some (ground (arith, eq_iff dir d)))
                  | inr other ↦ inl (was_before d (rw (contains-add dirs dir d, other) at h))
                ];
                staged = λ loaded. (dir, refl);
              })
        | inr (f, failing) ↦
            rw (failing, stage)
              (record {
                owned = λ d h. elim (Bool-cases (str_eq dir d)) [
                  | inl same ↦
                      let clash : false ≡ true =
                        rw (contains-discard (add dirs dir) dir d, same) at h in
                      absurd (cc)
                  | inr other ↦ inl (
                      was_before d (
                        rw
                          (
                            contains-discard (add dirs dir) dir d,
                            other,
                            contains-add dirs dir d,
                            other,
                          )
                          at h))
                ];
                staged = r.staged;
              })
      ]

  ingest-Reclaimed :
      (host : Host) (s : Staging) (e : HotLoad) (dirs : StrSet)
      → Reclaimed before e dirs
      → Reclaimed before (ingest host s e dirs).1 (ingest host s e dirs).2
  unfolding ingest
  ingest-Reclaimed host s e dirs r =
      let (dropped, unowned) = drop_prior-Reclaimed e dirs r in
      let swept = sweep-Reclaimed host _ _ dropped in
      elim (Bool-cases (check_shm_budget s)) [
        | inl fits ↦ rw (fits, ingest) (stage-Reclaimed host s _ _ swept unowned)
        | inr full ↦ rw (full, ingest) swept
      ]

  close_hot-before :
      (e : HotLoad) (dirs : StrSet) (d : String)
      → Reclaimed before e dirs
      → contains (close_hot e dirs).1 d ≡ true
      → contains before d ≡ true
  unfolding close_hot
  close_hot-before e dirs d r h = elim (Option-cases e.ingest_dir) [
    | inl unowned ↦ elim (r.owned d (rw (unowned, close_hot) at h)) [
      | inl was ↦ was
      | inr mine ↦ absurd (cc (mine, unowned))
    ]
    | inr (own, owns) ↦ discard-before e own dirs d r owns (rw (owns, close_hot) at h)
  ]

  apply-Reclaimed :
      (c : Call) (e : HotLoad) (dirs : StrSet)
      → Reclaimed before e dirs
      → Reclaimed before (apply c e dirs).0 (apply c e dirs).1
  unfolding apply run_hot load_hot close_hot
  apply-Reclaimed (ingests host s) e dirs r = ingest-Reclaimed host s e dirs r
  apply-Reclaimed (runs py req_id b) e dirs r = elim (Bool-cases e.loaded) [
    | inl loaded ↦
        rw (loaded, apply, run_hot) (record { owned = r.owned; staged = λ again. r.staged loaded })
    | inr cold ↦
        rw (cold, apply, run_hot) (record { owned = r.owned; staged = λ again. absurd (cc) })
  ]
  apply-Reclaimed (loads b) e dirs r = elim (Bool-cases e.loaded) [
    | inl loaded ↦
        rw (loaded, apply, load_hot) (record { owned = r.owned; staged = λ again. r.staged loaded })
    | inr cold ↦
        rw (cold, apply, load_hot) (record { owned = r.owned; staged = λ again. absurd (cc) })
  ]
  apply-Reclaimed closes e dirs r = record {
    owned = λ d h. inl (close_hot-before e dirs d r h);
    staged = λ loaded. absurd (cc);
  }

  apply_all-keeps :
      (cs : List Call) (e : HotLoad) (dirs : StrSet)
      → Reclaimed before e dirs
      → Reclaimed before (apply_all cs e dirs).0 (apply_all cs e dirs).1
  unfolding apply_all
  apply_all-keeps [] e dirs r = r
  apply_all-keeps (c ∷ cs) e dirs r = apply_all-keeps cs _ _ (apply-Reclaimed c e dirs r)

-- From an engine without data, whatever ingests, runs, loads and closes follow, and however they fail,
-- an ingest directory that stands in shared memory stood there before or is the one that the engine
-- holds: a replaced, refused or failed ingest leaves none. An engine that calls itself loaded holds a
-- directory, and closing it leaves none but those that stood there before.
pub apply_all-Reclaimed :
    (cs : List Call) (e : HotLoad) (before : StrSet)
    → e.ingest_dir ≡ none
    → e.loaded ≡ false
    → Reclaimed before (apply_all cs e before).0 (apply_all cs e before).1
      × ((d : String)
          → contains (close_hot (apply_all cs e before).0 (apply_all cs e before).1).1 d ≡ true
          → contains before d ≡ true)
apply_all-Reclaimed cs e before unowned cold =
    let start : Reclaimed before e before = record {
      owned = λ d h. inl h;
      staged = λ loaded. absurd (cc);
    } in
    let r = apply_all-keeps before cs e before start in
    (r, λ d h. close_hot-before before _ _ d r h)
