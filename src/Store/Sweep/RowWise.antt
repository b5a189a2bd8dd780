-- ===== src/Store/Sweep/RowWise.antt =====
-- The sweep's loop over the stale rows, an UPDATE by id for each, rewrites each stale row once.
use antigravity_webhook_hub.Prelude.{
  str_eq_comm, ℕ, suc, eq_iff, ◌≡◌, refl, ap, ◌∙◌, inl, inr, Bool, false, ◌&&◌, List, [], ◌∷◌, any,
  keep, arith, Bool-cases, if◌then◌else◌,
}
use antigravity_webhook_hub.Store.Rows.{Task, update_rows, count_rows}
use antigravity_webhook_hub.Store.Tasks.{has_id}
use antigravity_webhook_hub.Store.Updates.{Distinct, update_rows-none, any-keep}
use antigravity_webhook_hub.Store.Sweep.{
  Options, is_stale, may_retry, recover_stale, recover_stale_tasks,
}

abbrev counted : Bool → ℕ × List Task → ℕ × List Task
counted b r = (if b then suc r.0 else r.0, r.1)

module _ (o : Options) (now : ℕ) where
  pub recover_stale-id : (st t : Task) → (recover_stale o now st t).task_id ≡ t.task_id
  unfolding recover_stale
  recover_stale-id st t = ground arith

  -- A row with an id of its own is passed over.
  pass_over :
      (stale : List Task) (t : Task) (ts : List Task)
      → any (has_id t.task_id) stale ≡ false
      → recover_stale_tasks o now stale (t ∷ ts)
        ≡ ((recover_stale_tasks o now stale ts).0, t ∷ (recover_stale_tasks o now stale ts).1)
  unfolding recover_stale_tasks
  pass_over [] t ts h = refl
  pass_over (st ∷ stale) t ts h = elim (Bool-cases (has_id t.task_id st)) [
    | inl e ↦ cc
    | inr e ↦ rw (str_eq_comm t.task_id st.task_id ∙ e) (
        ap (counted (may_retry o st)) (
          pass_over stale t (update_rows (has_id st.task_id) (recover_stale o now st) ts)
            (rw e at h)))
  ]

  -- The rows behind the first, once that one is as `u`.
  passed :
      (t u : Task) (ts : List Task)
      → Distinct (t ∷ ts)
      → u.task_id ≡ t.task_id
      → recover_stale_tasks o now (keep (is_stale o now) ts) ts ≡ (
        count_rows (λ v. is_stale o now v && may_retry o v) ts,
        update_rows (is_stale o now) (λ v. recover_stale o now v v) ts,
      )
      → recover_stale_tasks o now (keep (is_stale o now) ts) (u ∷ ts) ≡ (
        count_rows (λ v. is_stale o now v && may_retry o v) ts,
        u ∷ update_rows (is_stale o now) (λ v. recover_stale o now v v) ts,
      )
  passed t u ts d same rest =
      pass_over (keep (is_stale o now) ts) u ts
        (rw same (any-keep (has_id t.task_id) (is_stale o now) ts d.0))
      ∙ ap (λ (r : ℕ × List Task). (r.0, u ∷ r.1)) rest

  pub row_wise :
      (ts : List Task)
      → Distinct ts
      → recover_stale_tasks o now (keep (is_stale o now) ts) ts ≡ (
        count_rows (λ t. is_stale o now t && may_retry o t) ts,
        update_rows (is_stale o now) (λ t. recover_stale o now t t) ts,
      )
  unfolding recover_stale_tasks count_rows update_rows
  row_wise [] d = refl
  row_wise (t ∷ ts) d = elim (Bool-cases (is_stale o now t)) [
    | inl e ↦
        rw
          (
            e,
            (eq_iff t.task_id t.task_id).1 refl,
            update_rows-none (has_id t.task_id) (recover_stale o now t) ts d.0,
          )
          (ap (counted (may_retry o t))
            (passed t (recover_stale o now t t) ts d (recover_stale-id t t) (row_wise ts d.1)))
    | inr e ↦ rw e (passed t t ts d refl (row_wise ts d.1))
  ]
