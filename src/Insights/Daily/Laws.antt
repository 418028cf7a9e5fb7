-- ===== src/Insights/Daily/Laws.antt =====
-- What the sanitized insights keep to.
use leitstand.Common.{
  ◌≡◌, subst, ◌≢◌, ◌⊎◌, inl, inr, Bool, Bool-cases, true, false, ◌&&◌, String, ◌==◌, eq_iff, some,
  List, [], ◌∷◌, length, arith,
}
use leitstand.Common.Text.{trim}
use leitstand.Json.{Json, null, boolean, number, string, array, object, get, string_or}
use leitstand.Insights.Items.{as_topic, as_text, sanitize_indexed_items}
use leitstand.Insights.Items.Laws.{index_map-lt}
use leitstand.Insights.References.{sanitize_data_refs}
use leitstand.Insights.References.Anchors.{
  IsAnchored, RefsHold, sanitize_data_refs-RefsHold, remap_data_refs-RefsHold,
}
use leitstand.Insights.Daily.{DailyInsights, is_empty, insights_of, sanitize_daily_insights}

pub record IsConsistent (require_ts : Bool) (r : DailyInsights) : Type 0 where
  pub dated : require_ts ≡ true → r.ts ≢ ""
  pub filled : r.ts ≡ "" → (r.topics ≢ []) ⊎ ((r.questions ≢ []) ⊎ (r.deltas ≢ []))
  pub anchored :
      RefsHold
        (IsAnchored (length r.topics))
        (IsAnchored (length r.questions))
        (IsAnchored (length r.deltas))
        r.data_refs

filled_of :
    {A : Type 0} (xs : List A) (ys zs : List String)
    → (is_empty xs && is_empty ys && is_empty zs) ≡ false
    → (xs ≢ []) ⊎ ((ys ≢ []) ⊎ (zs ≢ []))
filled_of (x ∷ xs) ys zs h = inl (λ e. cc)
filled_of [] (y ∷ ys) zs h = inr (inl (λ e. cc))
filled_of [] [] (z ∷ zs) h = inr (inr (λ e. cc))
filled_of [] [] [] h = cc

-- Insights that pass have a date if one is asked for and are not empty, and every data reference in
-- them is of an item that is there, has references none of which is empty, and links to the site only.
pub sanitize_daily_insights-IsConsistent :
    (raw : Json) (require_ts : Bool) (r : DailyInsights)
    → sanitize_daily_insights raw require_ts ≡ some r
    → IsConsistent require_ts r
unfolding sanitize_daily_insights
sanitize_daily_insights-IsConsistent null require_ts r h = cc
sanitize_daily_insights-IsConsistent (boolean b) require_ts r h = cc
sanitize_daily_insights-IsConsistent (number n) require_ts r h = cc
sanitize_daily_insights-IsConsistent (string s) require_ts r h = cc
sanitize_daily_insights-IsConsistent (array vs) require_ts r h = cc
sanitize_daily_insights-IsConsistent (object ms) require_ts r h =
    let raw = object ms in
    let ts = trim (string_or "" (get "ts" raw)) in
    let topics = sanitize_indexed_items as_topic (get "topics" raw) in
    let questions = sanitize_indexed_items as_text (get "questions" raw) in
    let deltas = sanitize_indexed_items as_text (get "deltas" raw) in
    elim (Bool-cases (require_ts && ts == "")) [
      | inl undated ↦ absurd (ground arith)
      | inr dated ↦
          elim (Bool-cases
            (ts == "" && is_empty topics.kept && is_empty questions.kept && is_empty deltas.kept)) [
              | inl empty ↦ absurd (ground arith)
              | inr filled ↦
                  let refs = sanitize_data_refs (get "data_refs" raw) in
                  let built : insights_of ms ≡ r = ground arith in
                  subst (IsConsistent require_ts) built (record {
                    dated = λ e f. ground (arith, eq_iff ts "");
                    filled = λ e.
                        filled_of topics.kept questions.kept deltas.kept
                          (ground (arith, eq_iff ts ""));
                    anchored =
                        remap_data_refs-RefsHold (length topics.kept) (length questions.kept)
                          (length deltas.kept) refs topics.index_map questions.index_map
                          deltas.index_map (index_map-lt as_topic (get "topics" raw))
                          (index_map-lt as_text (get "questions" raw))
                          (index_map-lt as_text (get "deltas" raw))
                          (sanitize_data_refs-RefsHold (get "data_refs" raw));
                  })
            ]
    ]
