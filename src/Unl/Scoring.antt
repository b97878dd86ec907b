-- ===== src/Unl/Scoring.antt =====
-- When src/UniqueNodeList/UniqueNodeList.cpp scores: scoreNext, scoreTimerHandler and fetchDirty.
pub mod Scheduled
use Prim.Native.String.{String}
use bytev.Prelude.{
  ℕ, ◌+◌, Bool, true, false, Option, none, some, List, [], ◌∷◌, ◌++◌, ltb, leb, ◌&&◌, ◌||◌,
  if◌then◌else◌,
}
use bytev.Unl.Compute.{ScoreTables, score_compute}
use bytev.Unl.State.{Tables, NodeList, Effect, score_timer, scan_refresh, Run, ◌>>>◌}

abbrev pub score_delay_seconds : ℕ
score_delay_seconds = 5

-- `!t.is_not_a_date_time() && limit < t` turned round: the time is none or at most the limit.
abbrev pub none_or_at_most : ℕ → Option ℕ → Bool
none_or_at_most limit none = true
none_or_at_most limit (some t) = leb t limit

abbrev pub none_or_before : ℕ → Option ℕ → Bool
none_or_before limit none = true
none_or_before limit (some t) = ltb t limit

module _ {Db : Type 0} where
  -- bDirty, with mtpFetchUpdated at `fetched`.
  abbrev pub is_dirty : ℕ → NodeList Db → Bool
  is_dirty fetched p =
      none_or_at_most fetched p.score_updated
      && none_or_before (fetched + score_delay_seconds) p.score_next_at

  unfoldable pub score_next : ℕ → Bool → NodeList Db → Run Db
  score_next now force p = elim p.score_start [
    | some start ↦ (p, [])
    | none ↦ elim p.fetch_updated [
      | none ↦ (p, [])
      | some fetched ↦
          let at = now + (if force then 0 else score_delay_seconds) in
          if force || is_dirty fetched p
          then (record p { score_next_at = some at }, score_timer at ∷ [])
          else (p, [])
    ]
  ]

module _ {Db : Type 0} (t : Tables Db) (now : ℕ) where
  unfoldable pub misc_save : NodeList Db → NodeList Db
  misc_save p = record p { db = t.save_misc p.db p.fetch_updated p.score_updated }

  unfoldable pub fetch_dirty : NodeList Db → Run Db
  fetch_dirty p = score_next now false (misc_save (record p { fetch_updated = some now }))

  -- The end of a scoring, that started now and gave the tables and the list.
  unfoldable pub score_finish : Db → List String → NodeList Db → Run Db
  score_finish db unl p =
      let q = record p {
        score_next_at = none;
        score_start = some now;
        db = db;
        unl = unl;
        score_updated = some now;
      } in
      score_next now false (record (misc_save q) { score_start = none })
      >>> (λ r. (r, scan_refresh ∷ []))

  -- The timer ends with an error or without; on the fuel of scoreCompute, and none if that ran out.
  unfoldable pub score_timer_handler :
      ScoreTables Db → (String → Bool) → (ℕ → Bool) → ℕ → Bool → NodeList Db → Option (Run Db)
  score_timer_handler scores is_node_public moves n error p =
      if error then some (p, []) else elim (score_compute scores is_node_public moves n p.db) [
        | none ↦ none
        | some (db, unl) ↦ some (score_finish db unl p)
      ]
