-- ===== src/Engine/Orphans.antt =====
-- router/shm_transport.py: which directories the sweep removes.
use synno_db.Base.{
  String, ◌≡◌, refl, sym, ◌∙◌, ap, inl, inr, Bool, true, false, not, ◌&&◌, [], ◌∷◌, ◌++◌, all,
  Bool-cases, arith, str_eq, eq_iff,
}
use synno_db.Base.Dict.{StrSet, contains}
use synno_db.Python.Texts.{Text, chars, text_of, after_prefix}
use synno_db.Engine.HotLoad.{
  Host, Staging, is_dash, split_dash, is_number, matches_start, is_orphan, sweep_ingest_orphans,
  or_zero, ingest_name,
}

chars-text_of : (t : Text) → chars (text_of t) ≡ t
chars-text_of [] = refl
chars-text_of (c ∷ cs) = ap (λ (t : Text). c ∷ t) (chars-text_of cs)

abbrev pub has_no_dash : Text → Bool
has_no_dash w = all (λ c. not (is_dash c)) w

split_dash-append :
    (w t : Text) → has_no_dash w ≡ true → split_dash (w ++ "-" ∷ t) ≡ w ∷ split_dash t
unfolding split_dash
split_dash-append [] t h = refl
split_dash-append (c ∷ cs) t h = elim (Bool-cases (is_dash c)) [
  | inl dash ↦ let clash : false ≡ true = rw dash at h in absurd (cc)
  | inr plain ↦
      let rest : has_no_dash cs ≡ true = rw plain at h in
      rw (plain, split_dash-append cs t rest) refl
]

is_orphan-ingest_name :
    (host owner : Host) (s : Staging)
    → is_number host owner.pid ≡ true
    → has_no_dash owner.pid ≡ true
    → has_no_dash (or_zero (owner.proc_start_time owner.pid)) ≡ true
    → is_orphan host (ingest_name owner s)
      ≡ not (
          host.pid_alive owner.pid
          && matches_start
              (host.proc_start_time owner.pid)
              (or_zero (owner.proc_start_time owner.pid)))
unfolding is_orphan after_prefix
is_orphan-ingest_name host owner s digits plain_pid plain_start =
    let start : Text = or_zero (owner.proc_start_time owner.pid) in
    let tail : Text = owner.pid ++ "-" ∷ (start ++ "-" ∷ s.suffix) in
    rw
      (
        chars-text_of tail,
        split_dash-append owner.pid (start ++ "-" ∷ s.suffix) plain_pid,
        split_dash-append start s.suffix plain_start,
        digits,
        is_orphan,
      )
      refl

contains-sweep_ingest_orphans :
    (host : Host) (dirs : StrSet) (d : String)
    → contains (sweep_ingest_orphans host dirs) d ≡ (contains dirs d && not (is_orphan host d))
unfolding sweep_ingest_orphans contains
contains-sweep_ingest_orphans host [] d = refl
contains-sweep_ingest_orphans host (k ∷ ks) d = elim (Bool-cases (str_eq k d)) [
  | inr other ↦ elim (Bool-cases (is_orphan host k)) [
    | inl gone ↦ rw (gone, other) (contains-sweep_ingest_orphans host ks d)
    | inr kept ↦ rw (kept, other) (contains-sweep_ingest_orphans host ks d)
  ]
  | inl same ↦
      let e : k ≡ d = ground (arith, eq_iff k d) in
      elim (Bool-cases (is_orphan host k)) [
        | inl gone ↦
            let gone_too : is_orphan host d ≡ true = ap (is_orphan host) (sym e) ∙ gone in
            let nowhere : (contains ks d && false) ≡ false = ground arith in
            rw (gone, same, gone_too)
              (contains-sweep_ingest_orphans host ks d
                ∙ ap (λ b. contains ks d && not b) gone_too
                ∙ nowhere)
        | inr kept ↦
            let kept_too : is_orphan host d ≡ false = ap (is_orphan host) (sym e) ∙ kept in
            rw (kept, same, kept_too) refl
      ]
]

pub sweep-contains :
    (host : Host) (dirs : StrSet) (d : String)
    → contains (sweep_ingest_orphans host dirs) d ≡ true
    → contains dirs d ≡ true
sweep-contains host dirs d h = ground (arith, contains-sweep_ingest_orphans host dirs d)

-- The sweep leaves a directory that an ingest of some process made exactly while that process is alive
-- and, if its start time can be read, still has the start time in the directory's name: it keeps the
-- directories of live owners, and removes those of dead ones and of processes whose number was given
-- to another one. The process number is of digits, and neither it nor the start time has a dash.
pub sweep_ingest_orphans-ingest_name :
    (host owner : Host) (s : Staging) (dirs : StrSet)
    → is_number host owner.pid ≡ true
    → has_no_dash owner.pid ≡ true
    → has_no_dash (or_zero (owner.proc_start_time owner.pid)) ≡ true
    → contains (sweep_ingest_orphans host dirs) (ingest_name owner s) ≡ (
        contains dirs (ingest_name owner s)
        && (host.pid_alive owner.pid
            && matches_start
                (host.proc_start_time owner.pid)
                (or_zero (owner.proc_start_time owner.pid))))
sweep_ingest_orphans-ingest_name host owner s dirs digits plain_pid plain_start = ground (
  arith,
  contains-sweep_ingest_orphans host dirs (ingest_name owner s),
  is_orphan-ingest_name host owner s digits plain_pid plain_start,
)
