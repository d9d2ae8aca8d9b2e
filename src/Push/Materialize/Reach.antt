-- ===== src/Push/Materialize/Reach.antt =====
-- Whom the deliveries of a round are for.
use tigerduck_backend.Prelude.{
  ℕ, suc, ◌<◌, ◌≡◌, ◌⊎◌, refl, ap, sym, subst, arith, Bool, true, false, ◌&&◌, not, Option, none,
  some, List, [], ◌∷◌, ◌++◌, filter, any, str_eq, ◌==◌, if◌then◌else◌, is_some, All, All-append,
  All-map, Bool-cases, inl, inr, In, All_of_In, ◌∙◌,
}
use mathlib.Core.List.{append-nil, append_assoc}
use tigerduck_backend.Push.Job.{PushJob, Delivery, Token, is_active}
use tigerduck_backend.Push.Presend.{is_reminder, is_activity_end, opt_eq}
use tigerduck_backend.Push.Versions.{is_apple_handheld, schedules_reminders_locally}
use tigerduck_backend.Push.Db.{UserDevice, PushDb, same_kind, has_deliveries}
use tigerduck_backend.Push.Countdown.{Starts}
use tigerduck_backend.Push.Guards.{
  Facts, is_sync_trigger, is_activity, course_channel, bulletin_channel,
}
use tigerduck_backend.Push.Materialize.{
  Row, RoundSettings, selects, token_rows, join_device, chosen, takes_push, is_source, target_kind,
  in_force, equals_if_some, member_if_some, implies, delivery_for, insert_rows, has_key, fill,
  reach, starts_for, waits_for_countdown, is_left_out, on_list,
}

-- The device and the token of a delivery are ones that the job is for.
pub record IsReached (now : ℕ) (job : PushJob) (t : Token) (d : UserDevice) : Type 0 where
  pub owner : d.user_id ≡ job.user_id
  pub signed_in : d.deleted_at ≡ none
  pub token_active : is_active t.status ≡ true
  pub unexpired : (t.expires_at ≡ none) ⊎ ((e : ℕ) × (t.expires_at ≡ some e) × (now < e))
  pub kind : same_kind t.token_kind (target_kind job) ≡ true
  pub no_mac : str_eq d.platform "macos" ≡ false
  pub addressee : (job.device_id ≡ none) ⊎ (job.device_id ≡ some d.id)
  pub reminder :
      (is_reminder job ≡ false)
      ⊎ ((d.sync_assignment_reminders ≡ true)
          × (d.cloud_sync_enabled ≡ true)
          × (schedules_reminders_locally d.platform d.app_version ≡ false))
  pub trigger :
      (is_sync_trigger job ≡ false) ⊎ ((d.cloud_sync_enabled ≡ true) × (is_source job d.id ≡ false))
  pub bulletin : (str_eq job.channel bulletin_channel ≡ false) ⊎ (d.bulletin_push_enabled ≡ true)

in_force-cases :
    (now : ℕ) (e : Option ℕ)
    → in_force now e ≡ true
    → (e ≡ none) ⊎ ((t : ℕ) × (e ≡ some t) × (now < t))
in_force-cases now none h = inl refl
in_force-cases now (some t) h = inr (t, refl, ground arith)

equals_if_some-cases :
    (o : Option ℕ) (i : ℕ) → equals_if_some o i ≡ true → (o ≡ none) ⊎ (o ≡ some i)
equals_if_some-cases none i h = inl refl
equals_if_some-cases (some j) i h = inr (ap some (let q : i ≡ j = ground arith in sym q))

abbrev implied : (a b : Bool) → implies a b ≡ true → (a ≡ false) ⊎ (b ≡ true)
implied true b h = inr h
implied false b h = inl refl

both : (a b : Bool) → (a && b) ≡ true → (a ≡ true) × (b ≡ true)
both a b h = ground arith

not-true : (b : Bool) → not b ≡ true → b ≡ false
not-true b h = ground arith

reminder_cases :
    (b sync switch handheld own : Bool)
    → implies b (sync && (switch && handheld)) ≡ true
    → not (b && own) ≡ true
    → (b ≡ false) ⊎ ((switch ≡ true) × (sync ≡ true) × (own ≡ false))
reminder_cases false sync switch handheld own h k = inl refl
reminder_cases true sync switch handheld own h k = inr (ground arith)

trigger_cases :
    (b sync source : Bool)
    → implies b sync ≡ true
    → source ≡ false
    → (b ≡ false) ⊎ ((sync ≡ true) × (source ≡ false))
trigger_cases false sync source h k = inl refl
trigger_cases true sync source h k = inr (h, k)

bulletin_cases : (b on member : Bool) → implies b (on && member) ≡ true → (b ≡ false) ⊎ (on ≡ true)
bulletin_cases false on member h = inl refl
bulletin_cases true on member h = inr (ground arith)

selects-IsReached :
    (now : ℕ) (job : PushJob) (r : Row)
    → selects now job r.token r.device ≡ true
    → takes_push job r ≡ true
    → is_source job r.device.id ≡ false
    → IsReached now job r.token r.device
unfolding selects
selects-IsReached now job r h takes source =
    let (owned, h1) = both _ _ h in
    let (user, kept) =
      both (r.device.user_id == job.user_id) (not (is_some r.device.deleted_at)) owned in
    let (token, h2) = both _ _ h1 in
    let (kind, t1) = both _ _ token in
    let (active, expiry) = both _ _ t1 in
    let (addressed, h3) = both _ _ h2 in
    let (scope, h4) =
      both
        (implies (is_activity job && is_activity_end job)
          (opt_eq job.payload.activity_id r.token.scope_key))
        _ h3 in
    let (trigger, h5) = both _ _ h4 in
    let (reminder, h6) = both _ _ h5 in
    let (course, bulletin) =
      both (implies (str_eq job.channel course_channel) (is_apple_handheld r.device.platform)) _
        h6 in
    let (mac, own) = both _ _ takes in
    record {
      owner = ground (arith, user);
      signed_in = ground (arith, kept);
      token_active = active;
      unexpired = in_force-cases now r.token.expires_at expiry;
      kind = kind;
      no_mac = not-true _ mac;
      addressee = equals_if_some-cases job.device_id r.device.id addressed;
      reminder =
          reminder_cases (is_reminder job) _ _ (is_apple_handheld r.device.platform) _ reminder own;
      trigger = trigger_cases (is_sync_trigger job) _ _ trigger source;
      bulletin =
          bulletin_cases (str_eq job.channel bulletin_channel) _
            (member_if_some job.payload.target_device_ids r.device.id) bulletin;
    }

-- A row of the query: a stored token with its stored device, selected.
record IsRow (now : ℕ) (job : PushJob) (tokens : List (ℕ × Token)) (devices : List UserDevice)
    (r : Row) : Type 0 where
  stored : In (r.token_id, r.token) tokens
  known : In r.device devices
  joined : r.device.id ≡ r.token.device_id
  selected : selects now job r.token r.device ≡ true

join-IsRow :
    (now : ℕ) (job : PushJob) (t : ℕ × Token) (tokens : List (ℕ × Token)) (all : List UserDevice)
    (d : UserDevice)
    → In t tokens
    → In d all
    → (d.id == t.1.device_id && selects now job t.1 d) ≡ true
    → IsRow now job tokens all (record { token_id = t.0; token = t.1; device = d })
join-IsRow now job t tokens all d i k h =
    let (same, chosen_row) = both (d.id == t.1.device_id) (selects now job t.1 d) h in
    record { stored = i; known = k; joined = ground (arith, same); selected = chosen_row }

join_device-IsRow :
    (now : ℕ) (job : PushJob) (t : ℕ × Token) (tokens : List (ℕ × Token))
    (all devices : List UserDevice)
    → In t tokens
    → All (λ d. In d all) devices
    → All (IsRow now job tokens all) (join_device now job t devices)
join_device-IsRow now job t tokens all [] i h = tt
join_device-IsRow now job t tokens all (d ∷ ds) i h =
    elim (Bool-cases (d.id == t.1.device_id && selects now job t.1 d)) [
      | inl yes_row ↦ rw yes_row (
        join-IsRow now job t tokens all d i h.0 yes_row,
        join_device-IsRow now job t tokens all ds i h.1,
      )
      | inr no_row ↦ rw no_row (join_device-IsRow now job t tokens all ds i h.1)
    ]

token_rows-IsRow :
    (now : ℕ) (job : PushJob) (all ts : List (ℕ × Token)) (devices : List UserDevice)
    → All (λ t. In t all) ts
    → All (IsRow now job all devices) (token_rows now job ts devices)
unfolding token_rows
token_rows-IsRow now job all [] devices h = tt
token_rows-IsRow now job all (t ∷ ts) devices h =
    All-append (IsRow now job all devices) (join_device now job t devices)
      (token_rows now job ts devices)
      (join_device-IsRow now job t all devices devices h.0
        (All_of_In (λ d. In d devices) devices (λ d i. i)))
      (token_rows-IsRow now job all ts devices h.1)

-- The rows after the insertion, those that were there first.
record Inserted (P : Row → Type 0) (now j : ℕ) (before after : List (ℕ × Delivery)) : Type 0 where
  added : List (ℕ × Delivery)
  split : after ≡ before ++ added
  made : All (λ e. (e.0 ≡ j) × ((r : Row) × P r × (e.1 ≡ delivery_for e.1.id now r))) added

Inserted-refl :
    (P : Row → Type 0) (now j : ℕ) (rows : List (ℕ × Delivery)) → Inserted P now j rows rows
Inserted-refl P now j rows = record { added = []; split = sym (append-nil rows); made = tt }

module _ (P : Row → Type 0) (now j : ℕ) where
  insert_rows-Inserted :
      (rs : List Row) (before : List (ℕ × Delivery)) (next : ℕ)
      → All P rs
      → Inserted P now j before (insert_rows now j rs (before, next)).0
  unfolding insert_rows
  insert_rows-Inserted [] before next h = Inserted-refl P now j before
  insert_rows-Inserted (r ∷ rs) before next h =
      elim (Bool-cases (has_key j (delivery_for next now r) before)) [
        | inl old ↦ subst step (sym old) (insert_rows-Inserted rs before (suc next) h.1)
        | inr fresh ↦
            let row : ℕ × Delivery = (j, delivery_for next now r) in
            let rest = insert_rows-Inserted rs (before ++ row ∷ []) (suc next) h.1 in
            subst step (sym fresh) (record {
              added = row ∷ rest.added;
              split = rest.split ∙ append_assoc before (row ∷ []) rest.added;
              made = ((refl, (r, h.0, refl)), rest.made);
            })
      ]
    where
      step : Bool → Type 0
      step b =
          Inserted P now j before
            (insert_rows now j rs
              ((if b then before else before ++ (j, delivery_for next now r) ∷ []), suc next)).0

-- A delivery made for one of the job's tokens: of a stored token and its device, and one that the
-- job is for.
pub record IsTarget (now : ℕ) (job : PushJob) (db : PushDb) (d : Delivery) : Type 0 where
  pub row : Row
  pub stored : In (row.token_id, row.token) db.tokens
  pub known : In row.device db.devices
  pub joined : row.device.id ≡ row.token.device_id
  pub made : d ≡ delivery_for d.id now row
  pub reached : IsReached now job row.token row.device

abbrev Chosen : ℕ → PushJob → PushDb → Row → Type 0
Chosen now job db r = IsRow now job db.tokens db.devices r × IsReached now job r.token r.device

chosen-IsReached :
    (now : ℕ) (job : PushJob) (db : PushDb) (starts : Starts) (r : Row)
    → IsRow now job db.tokens db.devices r
    → chosen job starts r ≡ true
    → IsReached now job r.token r.device
unfolding chosen
chosen-IsReached now job db starts r h kept =
    let (takes, rest) = both (takes_push job r) _ kept in
    let (uncovered, elsewhere) = both (not (on_list starts.covered r.device.id)) _ rest in
    selects-IsReached now job r h.selected takes (not-true _ elsewhere)

chosen-Chosen :
    (now : ℕ) (job : PushJob) (db : PushDb) (starts : Starts) (rows : List Row)
    → All (IsRow now job db.tokens db.devices) rows
    → All (Chosen now job db) (filter (chosen job starts) rows)
unfolding chosen
chosen-Chosen now job db starts [] h = tt
chosen-Chosen now job db starts (r ∷ rows) h = elim (Bool-cases (chosen job starts r)) [
  | inl kept ↦ rw kept (
    (h.0, chosen-IsReached now job db starts r h.0 kept),
    chosen-Chosen now job db starts rows h.1,
  )
  | inr left ↦ rw left (chosen-Chosen now job db starts rows h.1)
]

-- The rows that a round adds are deliveries of the job to targets of it.
abbrev pub AddsTargets : ℕ → PushJob → PushDb → List (ℕ × Delivery) → Type 0
AddsTargets now job db after =
    (added : List (ℕ × Delivery)) × (after ≡ db.deliveries ++ added)
    × All (λ e. (e.0 ≡ job.id) × IsTarget now job db e.1) added

nothing_added : (now : ℕ) (job : PushJob) (db : PushDb) → AddsTargets now job db db.deliveries
nothing_added now job db = ([], sym (append-nil db.deliveries), tt)

delivery_for-IsTarget :
    (now : ℕ) (job : PushJob) (db : PushDb) (e : ℕ × Delivery)
    → (e.0 ≡ job.id) × ((r : Row) × Chosen now job db r × (e.1 ≡ delivery_for e.1.id now r))
    → (e.0 ≡ job.id) × IsTarget now job db e.1
delivery_for-IsTarget now job db e (mine, (r, c, made)) = (
  mine,
  record {
    row = r;
    stored = c.0.stored;
    known = c.0.known;
    joined = c.0.joined;
    made = made;
    reached = c.1;
  },
)

fill-AddsTargets :
    (s : RoundSettings) (now : ℕ) (job : PushJob) (db : PushDb) (rows : List Row) (starts : Starts)
    → All (IsRow now job db.tokens db.devices) rows
    → AddsTargets now job db (fill s now job db rows starts).db.deliveries
unfolding fill
fill-AddsTargets s now job db rows starts h =
    let values = filter (chosen job starts) rows in
    let first_round = not (has_deliveries job.id db.deliveries) in
    let put_in =
      insert_rows-Inserted (Chosen now job db) now job.id values db.deliveries db.next_delivery
        (chosen-Chosen now job db starts rows h) in
    elim (Bool-cases (first_round && waits_for_countdown s now job starts)) [
      | inl waits ↦ rw waits (nothing_added now job db)
      | inr goes ↦ elim (Bool-cases (any (λ r. true) values)) [
        | inl some_row ↦ rw goes (
            rw some_row (
              put_in.added,
              put_in.split,
              All-map (λ e k. delivery_for-IsTarget now job db e k) put_in.added put_in.made,
            ))
        | inr none_row ↦ elim (Bool-cases (first_round && any (is_left_out job starts) rows)) [
          | inl out ↦ rw goes (rw none_row (rw out (nothing_added now job db)))
          | inr in_all ↦ rw goes (rw none_row (rw in_all (nothing_added now job db)))
        ]
      ]
    ]

-- Whatever the round decides about its job, the deliveries it adds are to devices of the job's user
-- that are signed in, over active tokens of the job's kind that have not expired. None goes to a Mac
-- or past the device that the job names; a sync trigger goes to devices that sync and never back to
-- its source, an assignment reminder only where both switches are on and the app has no scheduler of
-- its own, a bulletin only where bulletins are on. The deliveries from before stay as they are.
pub reach-AddsTargets :
    (f : Facts) (s : RoundSettings) (now : ℕ) (job : PushJob) (db : PushDb)
    → AddsTargets now job db (reach f s now job db).db.deliveries
unfolding reach
reach-AddsTargets f s now job db =
    let rows = token_rows now job db.tokens db.devices in
    fill-AddsTargets s now job db rows (starts_for f s now job db rows) (
      token_rows-IsRow now job db.tokens db.tokens db.devices
        (All_of_In (λ t. In t db.tokens) db.tokens (λ t i. i)))
