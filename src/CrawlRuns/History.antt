-- ===== src/CrawlRuns/History.antt =====
-- The calls on crawl runs in any order, and what they do to the runs.
use ua_web_data_collector_sp.Base.{
  ℕ, ◌≤◌, ◌==◌, ==_iff, ◌≡◌, refl, sym, subst, String, Bool, true, false, not, ◌&&◌, ◌||◌, &&_parts,
  Option, none, some, List, [], ◌∷◌, ◌++◌, arith, if◌then◌else◌, is_none, Bool-cases, inl, inr,
}
use ua_web_data_collector_sp.Errors.{
  after, after-bind, or_raise, or_raise-eq-ok, require, require-eq-ok, value_error, not_found,
  conflict, integrity_error, invalid_transition,
}
use ua_web_data_collector_sp.Clock.{When, resolve_now}
use ua_web_data_collector_sp.Sql.{rows_where, update_where, count_where, one_or_none, find, Unique}
use ua_web_data_collector_sp.Sql.Laws.{
  find-update_where, update_where-Unique, count-append_one, find-append_found, append-Unique,
  find-key,
}
use ua_web_data_collector_sp.CrawlRuns.{
  CrawlRunStatus, CrawlRun, Db, run_key, is_running, is_full, is_running_full, fits_index,
  is_consistent, new_run, start_run, ended_run, save_run, finish_run, crawl_run_kind,
  finished_run_status,
}

pub data Call : Type 0 where
  starts : ℕ → String → String → Option ℕ → When → ℕ → Call
  finishes : ℕ → String → Option String → When → Call

unfoldable pub step : Db → Call → Db
unfolding start_run finish_run
step db (starts source_id kind started_by policy w id) =
    after db (start_run db source_id kind started_by policy w id)
step db (finishes run_id status error_code w) = after db (finish_run db run_id status error_code w)

unfoldable pub run : Db → List Call → Db
unfolding step
run db [] = db
run db (c ∷ cs) = run (step db c) cs

-- FR-002: at most one full run of a source is running.
pub record OneFull (db : Db) : Type 0 where
  pub unique : Unique run_key db.crawl_runs
  pub one : (source_id : ℕ) → count_where (is_running_full source_id) db.crawl_runs ≤ 1

-- What may become of a run: its source and kind stay, and nothing changes once it is finished.
pub record Followed (r r' : CrawlRun) : Type 0 where
  pub same_source : r'.source_id ≡ r.source_id
  pub same_kind : r'.kind ≡ r.kind
  pub settled : is_running r.status ≡ false → r' ≡ r

Followed-refl : (r : CrawlRun) → Followed r r
Followed-refl r = record { same_source = refl; same_kind = refl; settled = λ _. refl }

Followed-trans : (a b c : CrawlRun) → Followed a b → Followed b c → Followed a c
Followed-trans a b c h k = record {
  same_source = cc (h.same_source, k.same_source);
  same_kind = cc (h.same_kind, k.same_kind);
  settled = λ e.
      let b_a = h.settled e in
      subst (λ x. c ≡ x) b_a
        (k.settled (subst (λ (x : CrawlRun). is_running x.status ≡ false) (sym b_a) e));
}

pub record Kept (db db' : Db) : Type 0 where
  pub one_full : OneFull db'
  pub follows :
      (i : ℕ) (r : CrawlRun)
      → find run_key i db.crawl_runs ≡ some r
      → (r' : CrawlRun) × (find run_key i db'.crawl_runs ≡ some r') × Followed r r'

Kept-refl : (db : Db) → OneFull db → Kept db db
Kept-refl db h = record { one_full = h; follows = λ i r f. (r, f, Followed-refl r) }

Kept-trans : (a b c : Db) → Kept a b → Kept b c → Kept a c
Kept-trans a b c h k = record {
  one_full = k.one_full;
  follows = λ i r f.
      let (r', f', go) = h.follows i r f in
      let (r'', f'', on) = k.follows i r' f' in (r'', f'', Followed-trans r r' r'' go on);
}

is_none-eq : {A : Type 0} (o : Option A) → is_none o ≡ true → o ≡ none
is_none-eq none h = refl
is_none-eq (some a) h = absurd (cc)

or_right : {a b : Bool} → (not a || b) ≡ true → a ≡ true → b ≡ true
or_right h e = ground arith

module _ (q : CrawlRun → Bool) where
  count-append_fits :
      (rows : List CrawlRun) (x : CrawlRun)
      → count_where q rows ≤ 1
      → (q x ≡ true → is_none (one_or_none (rows_where q rows)) ≡ true)
      → count_where q (rows ++ x ∷ []) ≤ 1
  unfolding count_where rows_where one_or_none
  count-append_fits [] x h free = ground arith
  count-append_fits (r ∷ rows) x h free = elim (Bool-cases (q r)) [
    | inl e ↦
        let taken : q x ≡ false = elim (Bool-cases (q x)) [
          | inl k ↦ absurd (ground (arith, free k))
          | inr k ↦ k
        ] in
        ground (arith, h, count-append_one q rows x taken)
    | inr e ↦ ground (arith, count-append_fits rows x (ground arith) (λ k. ground (arith, free k)))
  ]

  count-update_less :
      (p : CrawlRun → Bool) (f : CrawlRun → CrawlRun) (rows : List CrawlRun)
      → ((r : CrawlRun) → q (f r) ≡ false)
      → count_where q (update_where p f rows) ≤ count_where q rows
  unfolding count_where update_where
  count-update_less p f [] less = omega arith
  count-update_less p f (r ∷ rows) less = ground (arith, less r, count-update_less p f rows less)

add-Kept :
    (db : Db) (x : CrawlRun)
    → OneFull db
    → fits_index x db ≡ true
    → is_consistent x db ≡ true
    → Kept db (record db { crawl_runs = db.crawl_runs ++ x ∷ [] })
unfolding fits_index is_consistent is_running_full run_key
add-Kept db x h fits consistent = record {
  one_full = record {
    unique = append-Unique run_key db.crawl_runs x h.unique fresh;
    one = λ source_id.
        count-append_fits (is_running_full source_id) db.crawl_runs x (h.one source_id)
          (free source_id);
  };
  follows = λ i r f. (r, find-append_found run_key i db.crawl_runs x r f, Followed-refl r);
}
  where
    fresh : find run_key (run_key x) db.crawl_runs ≡ none
    fresh = is_none-eq (find run_key (run_key x) db.crawl_runs) (&&_parts _ _ consistent).0

    free :
        (source_id : ℕ)
        → is_running_full source_id x ≡ true
        → is_none (one_or_none (rows_where (is_running_full source_id) db.crawl_runs)) ≡ true
    free source_id e =
        let (here, live) =
          &&_parts (x.source_id == source_id) (is_running x.status && is_full x.kind) e in
        subst (λ s. is_none (one_or_none (rows_where (is_running_full s) db.crawl_runs)) ≡ true)
          ((==_iff _ _).0 here) (or_right fits live)

save-Kept :
    (db : Db) (r r' : CrawlRun)
    → OneFull db
    → find run_key r.id db.crawl_runs ≡ some r
    → is_running r.status ≡ true
    → is_running r'.status ≡ false
    → r'.id ≡ r.id
    → r'.source_id ≡ r.source_id
    → r'.kind ≡ r.kind
    → Kept db (save_run r' db)
unfolding save_run run_key
save-Kept db r r' h found live done same_id same_source same_kind = record {
  one_full = record {
    unique = update_where-Unique run_key is_r (λ _. r') db.crawl_runs keeps h.unique;
    one = λ source_id.
        let less : count_where (is_running_full source_id)
              (update_where is_r (λ _. r') db.crawl_runs)
            ≤ count_where (is_running_full source_id) db.crawl_runs =
          count-update_less (is_running_full source_id) is_r (λ _. r') db.crawl_runs
            (λ _. unfold is_running_full in ground arith) in
        omega (arith, less, h.one source_id);
  };
  follows = λ i x f. (
    (if is_r x then r' else x),
    rw (find-update_where run_key i is_r (λ _. r') db.crawl_runs keeps, f) refl,
    elim (Bool-cases (is_r x)) [
      | inl e ↦ rw e (
          let at : i ≡ r.id =
            cc (find-key run_key i db.crawl_runs x f, (==_iff _ _).0 e, same_id) in
          let same : x ≡ r = ground (arith, f, found, at) in
          subst (λ y. Followed y r') (sym same)
            (record {
              same_source = same_source;
              same_kind = same_kind;
              settled = λ k. absurd (cc);
            }))
      | inr e ↦ rw e (Followed-refl x)
    ],
  );
}
  where
    is_r : CrawlRun → Bool
    is_r x = x.id == r'.id

    keeps : (x : CrawlRun) → is_r x ≡ true → run_key r' ≡ run_key x
    keeps x e = sym ((==_iff _ _).0 e)

finished_run_status-ends :
    (text : String) (s : CrawlRunStatus) → finished_run_status text ≡ some s → is_running s ≡ false
unfolding finished_run_status
finished_run_status-ends text s e = ground arith

start-Kept :
    (db : Db) (source_id : ℕ) (kind started_by : String) (policy : Option ℕ) (w : When) (id : ℕ)
    → OneFull db
    → Kept db (after db (start_run db source_id kind started_by policy w id))
unfolding start_run
start-Kept db source_id kind started_by policy w id h =
    after-bind (Kept db) db (or_raise (crawl_run_kind kind) value_error) _ (Kept-refl db h) λ k _.
      after-bind (Kept db) db (resolve_now w) _ (Kept-refl db h) λ now _.
        let x = new_run id source_id k started_by policy now in
        after-bind (Kept db) db (require (fits_index x db) conflict) _ (Kept-refl db h) λ _ fits.
          after-bind (Kept db) db (require (is_consistent x db) integrity_error) _ (Kept-refl db h)
            λ _ consistent.
              add-Kept db x h (require-eq-ok (fits_index x db) conflict fits)
                (require-eq-ok (is_consistent x db) integrity_error consistent)

finish-Kept :
    (db : Db) (run_id : ℕ) (status : String) (error_code : Option String) (w : When)
    → OneFull db
    → Kept db (after db (finish_run db run_id status error_code w))
unfolding finish_run
finish-Kept db run_id status error_code w h =
    after-bind (Kept db) db (or_raise (finished_run_status status) value_error) _ (Kept-refl db h)
      λ s ends.
        after-bind (Kept db) db (or_raise (find run_key run_id db.crawl_runs) not_found) _
          (Kept-refl db h)
          λ r found.
            after-bind (Kept db) db (require (is_running r.status) invalid_transition) _
              (Kept-refl db h)
              λ _ live. after-bind (Kept db) db (resolve_now w) _ (Kept-refl db h) λ now _.
                unfold ended_run in
                save-Kept db r (ended_run s error_code now r) h
                  (found_again r (or_raise-eq-ok _ not_found found))
                  (require-eq-ok (is_running r.status) invalid_transition live)
                  (finished_run_status-ends status s (or_raise-eq-ok _ value_error ends)) refl refl
                  refl
  where
    found_again :
        (r : CrawlRun)
        → find run_key run_id db.crawl_runs ≡ some r
        → find run_key r.id db.crawl_runs ≡ some r
    found_again r f =
        subst (λ i. find run_key i db.crawl_runs ≡ some r)
          (sym (unfold run_key in find-key run_key run_id db.crawl_runs r f)) f

step-Kept : (db : Db) (c : Call) → OneFull db → Kept db (step db c)
unfolding step
step-Kept db (starts source_id kind started_by policy w id) h =
    start-Kept db source_id kind started_by policy w id h
step-Kept db (finishes run_id status error_code w) h = finish-Kept db run_id status error_code w h

-- FR-002, under any sequence of calls from a table where it holds and the ids are unique: at each
-- source at most one full run is running, the ids stay unique, and no run disappears or moves to
-- another source or kind. A finished run stays exactly as it was finished.
pub run-Kept : (db : Db) (calls : List Call) → OneFull db → Kept db (run db calls)
unfolding run
run-Kept db [] h = Kept-refl db h
run-Kept db (c ∷ calls) h =
    let first = step-Kept db c h in
    Kept-trans db (step db c) (run (step db c) calls) first
      (run-Kept (step db c) calls first.one_full)
