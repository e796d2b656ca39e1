-- ===== src/Editor/Rereading.antt =====
-- tools/workspace_editor.py: what a read leaves in the cache.
use synno_db.Base.{
  String, ◌≡◌, refl, ◌⊎◌, inl, inr, Bool, true, false, Option, none, some, Bool-cases, arith,
  str_eq, eq_iff,
}
use synno_db.Base.Dict.{Dict, get, put, get-put}
use synno_db.Base.Int.{ℤ}
use synno_db.Python.Faults.{Fault, Result, ok, err}
use synno_db.Python.Texts.{Text}
use synno_db.Editor.Cache.{ReadEntry, Snapshots, Editor, cache_enabled, note}
use synno_db.Editor.Replay.{read_impl, read_live, miss_read, read_with, read_file}
use synno_db.Editor.Keeping.{Extends-refl, Framed, read_key_of}

put-keeps_read :
    (entries : Dict ReadEntry) (key k : String) (new entry : ReadEntry)
    → get entries key ≡ none
    → get entries k ≡ some entry
    → get (put entries key new) k ≡ some entry
put-keeps_read entries key k new entry free h = elim (Bool-cases (str_eq key k)) [
  | inl same ↦ let e : key ≡ k = ground (arith, eq_iff key k) in absurd (cc (e, h, free))
  | inr other ↦ rw (get-put entries key k new, other) h
]

-- A read that returned left an entry from which its text and its line of the summary are read again.
pub record ReadRecorded {C : Type 0} (git : Snapshots C) (path : String) (offset limit : Option ℤ)
    (e : Editor C) (result : Text) (e1 : Editor C) : Type 0 where
  pub entry : ReadEntry
  pub stored : get e1.reads (read_key_of git path offset limit e) ≡ some entry
  pub same : entry.result ≡ result
  pub activity : e1.activity ≡ note entry.summary e.activity
  pub hash : e1.current_hash ≡ e.current_hash
  pub disk : e1.disk ≡ e.disk

abbrev pub Read :
    {C : Type 0}
    → Snapshots C
    → String
    → Option ℤ
    → Option ℤ
    → Editor C
    → Result Text × Editor C
    → Type 0
Read git path offset limit e out =
    Framed e out.1
    × (((f : Fault) × (out.0 ≡ err f))
        ⊎ ((result : Text) × (out.0 ≡ ok result)
            × ReadRecorded git path offset limit e result out.1))

module _ {C : Type 0} (git : Snapshots C) (path : String) (offset limit : Option ℤ)
    (e : Editor C) where
  abbrev key_here : String
  key_here = read_key_of git path offset limit e

  read_live-Read :
      get e.reads key_here ≡ none
      → Read git path offset limit e (read_live (some key_here) path offset limit e)
  unfolding read_live
  read_live-Read free =
      let read : ReadEntry = record {
        result = (read_impl e.workspace path offset limit e.disk).0;
        summary = (read_impl e.workspace path offset limit e.disk).1;
      } in
      rw (free, read_live)
        (
          record {
            frame = refl;
            extends = record {
              patches = λ k old h. h;
              reads = λ k old. put-keeps_read e.reads key_here k read old free;
            };
          },
          inr (
            read.result,
            refl,
            record {
              entry = read;
              stored =
                  rw (get-put e.reads key_here key_here read)
                    (ground (arith, eq_iff key_here key_here));
              same = refl;
              activity = refl;
              hash = refl;
              disk = refl;
            },
          ),
        )

  miss_read-Read :
      (only : Bool) (why : String)
      → get e.reads key_here ≡ none
      → Read git path offset limit e (miss_read (some key_here) path offset limit only why e)
  unfolding miss_read
  miss_read-Read true why free = (record { frame = refl; extends = Extends-refl e }, inl (_, refl))
  miss_read-Read false why free = read_live-Read free

  read_with-Read :
      (o : Option ReadEntry)
      → get e.reads key_here ≡ o
      → Read git path offset limit e (read_with key_here path offset limit o e)
  unfolding read_with
  read_with-Read none found = miss_read-Read e.only_from_cache _ found
  read_with-Read (some entry) found = (
    record { frame = refl; extends = record { patches = λ k old h. h; reads = λ k old h. h } },
    inr (
      entry.result,
      refl,
      record {
        entry = entry;
        stored = found;
        same = refl;
        activity = refl;
        hash = refl;
        disk = refl;
      },
    ),
  )

  pub read_file-Read :
      cache_enabled e ≡ true → Read git path offset limit e (read_file git path offset limit e)
  unfolding read_file
  read_file-Read enabled = rw (enabled, read_file) (read_with-Read (get e.reads key_here) refl)
