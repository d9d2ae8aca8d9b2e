-- ===== src/Sync/Changelog/Paging.antt =====
-- The client's loop over `read_changes`, and what it collects.
use tigerduck_backend.Prelude.{
  ℕ, zero, suc, ◌<◌, ◌≤◌, ◌≡◌, ap, sym, ◌∙◌, true, false, ◌&&◌, Option, none, some, List, [], ◌∷◌,
  ◌++◌, map, arith, subst, ltb, leb, ◌==◌, if◌then◌else◌, Bool-cases, ltb_irrefl, lt→ltb_false,
  le→ltb_false, lt→ltb, ltb→lt, All-map, inl, inr, length, take, drop, filter, All, get_last?,
  filter-filter, filter_congr, filter_of_All, filter-All, take-take-suc, length-take, length-drop,
  get_last?-take, All-get_last?-take, take-append-drop, take_of_length-le,
}
use mathlib.Core.List.{map-append}
use native.Mathlib.Nat.{le_trans}
use tigerduck_backend.Prelude.Sorting.{
  order_by, Ascending, DistinctKeys, order_by-Ascending, filter-Ascending,
}
use tigerduck_backend.Sync.Changelog.{
  LogRow, SyncState, Db, ChangeEntry, ChangePage, ReadResult, page, revision_expired, change_entry,
  select_changes, make_page, read_changes_from, read_changes,
}

abbrev pub rev : LogRow → ℕ
rev r = r.revision

-- What the client does with a page, `next` being its reads from a later revision.
abbrev pub take_page :
    (ℕ → Option (List ChangeEntry × ℕ)) → ReadResult → Option (List ChangeEntry × ℕ)
take_page next (revision_expired _ _) = none
take_page next (page p) =
    if p.has_more
    then elim (next p.returned_until_revision) [
      | none ↦ none
      | some (more, last) ↦ some (p.changes ++ more, last)
    ]
    else some (p.changes, p.returned_until_revision)

-- One page after another, each from where the last one ended, until a page says it is the last.
unfoldable pub pull : ℕ → Db → ℕ → ℕ → ℕ → Option (List ChangeEntry × ℕ)
pull zero db user limit since = none
pull (suc fuel) db user limit since =
    take_page (pull fuel db user limit) (read_changes db user since limit)

after_head :
    (x : LogRow) (xs : List LogRow)
    → Ascending rev (x ∷ xs)
    → filter (λ y. ltb (rev x) (rev y)) (x ∷ xs) ≡ xs
after_head x xs s =
    rw (ltb_irrefl (rev x))
      (filter_of_All _ xs (All-map {P = λ y. rev x < rev y} (λ y lt. lt→ltb _ _ lt) xs s.0))

-- in ascending rows, those past the last of a page are those that the page left
after_page :
    (n : ℕ) (l : List LogRow) (r : LogRow)
    → Ascending rev l
    → get_last? (take (suc n) l) ≡ some r
    → filter (λ x. ltb (rev r) (rev x)) l ≡ drop (suc n) l
after_page n [] r s e = cc
after_page zero (x ∷ xs) r s e =
    let q : x ≡ r = cc in
    subst (λ z. filter (λ y. ltb (rev z) (rev y)) (x ∷ xs) ≡ xs) q (after_head x xs s)
after_page (suc n) (x ∷ []) r s e =
    let q : x ≡ r = cc in
    subst (λ z. filter (λ y. ltb (rev z) (rev y)) (x ∷ []) ≡ []) q (after_head x [] s)
after_page (suc n) (x ∷ y ∷ ys) r s e =
    let below : rev x < rev r = All-get_last?-take (λ z. rev x < rev z) (suc n) (y ∷ ys) s.0 e in
    rw (lt→ltb_false (rev x) (rev r) below) (after_page n (y ∷ ys) r s.1 e)

module _ (user current : ℕ) (log : List LogRow) where
  abbrev selected : ℕ → List LogRow
  selected since = select_changes user since current log

  -- reading on from a later revision filters the rows once more
  select-after :
      (since later : ℕ)
      → since ≤ later
      → selected later ≡ filter (λ r. ltb later (rev r)) (selected since)
  unfolding select_changes
  select-after since later h =
      sym
        (filter-filter _ _ (order_by rev log) ∙ filter_congr (order_by rev log) (λ r. ground arith))

  selected-Ascending : (since : ℕ) → DistinctKeys rev log → Ascending rev (selected since)
  unfolding select_changes
  selected-Ascending since d =
      filter-Ascending rev _ (order_by rev log) (order_by-Ascending rev log d)

  selected-All_after : (since : ℕ) → All (λ r. since < rev r) (selected since)
  unfolding select_changes
  selected-All_after since =
      All-map {P = λ r. (r.user_id == user && (ltb since (rev r) && leb (rev r) current)) ≡ true}
        (λ r h. ground arith) _ (filter-All _ (order_by rev log))

  -- a full page ends at a row past `since`, and the rows past that row are those left
  next_page :
      (since n : ℕ) (r : LogRow)
      → DistinctKeys rev log
      → get_last? (take (suc n) (selected since)) ≡ some r
      → (since < rev r) × (selected (rev r) ≡ drop (suc n) (selected since))
  next_page since n r d e =
      let later : since < rev r =
        All-get_last?-take (λ z. since < rev z) (suc n) (selected since) (selected-All_after since)
          e in
      (
        later,
        select-after since (rev r) (omega arith)
            ∙ after_page n (selected since) r (selected-Ascending since d) e,
      )

abbrev last_page : ℕ → List LogRow → ChangePage
last_page current l = record {
  changes = map change_entry l;
  current_revision = current;
  returned_until_revision = current;
  has_more = false;
}

abbrev full_page : ℕ → ℕ → LogRow → List LogRow → ChangePage
full_page limit current r l = record {
  changes = map change_entry (take limit l);
  current_revision = current;
  returned_until_revision = rev r;
  has_more = true;
}

-- no more rows than the limit: the last page
make_page_last :
    (limit current : ℕ) (l : List LogRow)
    → length l ≤ limit
    → make_page limit current l ≡ last_page current l
unfolding make_page
make_page_last limit current l h =
    rw (take_of_length-le {n = suc limit} l (omega arith), take_of_length-le {n = limit} l h)
      (rw (le→ltb_false (length l) limit h))

-- more rows than the limit: a full page up to its last row
make_page_full :
    (limit current : ℕ) (l : List LogRow) (r : LogRow)
    → limit < length l
    → get_last? (take limit l) ≡ some r
    → make_page limit current l ≡ full_page limit current r l
unfolding make_page
make_page_full limit current l r h e = rw take-take-suc (
    rw (lt→ltb limit (length (take (suc limit) l)) (omega (arith, length-take (suc limit) l)))
      (rw e))

last_row :
    (n : ℕ) (l : List LogRow) → 0 < length l → (r : LogRow) × (get_last? (take (suc n) l) ≡ some r)
last_row n [] h = absurd (omega arith)
last_row n (x ∷ xs) h = get_last?-take n x xs

-- a page and what is left of the rows make the rows
rejoin :
    (n : ℕ) (l : List LogRow) (last : ℕ)
    → ◌≡◌ {A = Option (List ChangeEntry × ℕ)}
        (some (map change_entry (take n l) ++ map change_entry (drop n l), last))
        (some (map change_entry l, last))
rejoin n l last =
    ap {B = Option (List ChangeEntry × ℕ)} (λ es. some (es, last))
      (sym (map-append change_entry _ _) ∙ ap (map change_entry) (take-append-drop n l))

read_known :
    (s : SyncState) (log : List LogRow) (user n since : ℕ)
    → s.compacted_revision ≤ since
    → read_changes_from (some s) log user since (suc n)
      ≡ page (make_page (suc n) s.current_revision (selected user s.current_revision log since))
unfolding read_changes_from
read_known s log user n since h = rw (le→ltb_false s.compacted_revision since h)

module _ (db : Db) (user n : ℕ) (s : SyncState) (known : db.states user ≡ some s)
    (distinct : DistinctKeys rev db.log) where
  read_changes_lem :
      (since : ℕ)
      → s.compacted_revision ≤ since
      → read_changes db user since (suc n)
        ≡ page
            (make_page (suc n) s.current_revision (selected user s.current_revision db.log since))
  unfolding read_changes
  read_changes_lem since h =
      ap (λ st. read_changes_from st db.log user since (suc n)) known
      ∙ read_known s db.log user n since h

  abbrev rows : ℕ → List LogRow
  rows since = select_changes user since s.current_revision db.log

  -- A client that starts at or past its user's compacted revision and follows `returned_until` from
  -- page to page ends with exactly the user's rows from there up to the watermark, in ascending
  -- order, for every positive limit and fuel above the number of those rows.
  pub pull_complete :
      (fuel since : ℕ)
      → s.compacted_revision ≤ since
      → length (select_changes user since s.current_revision db.log) < fuel
      → pull fuel db user (suc n) since
        ≡ some (
          map change_entry (select_changes user since s.current_revision db.log),
          s.current_revision,
        )
  unfolding pull
  pull_complete zero since c h = absurd (omega arith)
  pull_complete (suc fuel) since c h = elim (Bool-cases (ltb (suc n) (length (rows since)))) [
    | inl more ↦
        let big : suc n < length (rows since) = ltb→lt (suc n) (length (rows since)) more in
        let (r, e) = last_row n (rows since) (omega arith) in
        let (later, rest) = next_page user s.current_revision db.log since n r distinct e in
        let fewer : length (rows (rev r)) < fuel =
          omega (arith, h, big, ap length rest, length-drop (suc n) (rows since)) in
        let ih = pull_complete fuel (rev r) (le_trans c (omega (arith, later))) fewer in
        ap (take_page (pull fuel db user (suc n))) (
          read_changes_lem since c
          ∙ ap page (make_page_full (suc n) s.current_revision (rows since) r big e))
        ∙ rw ih (rw rest (rejoin (suc n) (rows since) s.current_revision))
    | inr done ↦ ap (take_page (pull fuel db user (suc n))) (
        read_changes_lem since c
        ∙ ap page (make_page_last (suc n) s.current_revision (rows since) (ground arith)))
  ]
