-- ===== src/Api/Commands/Order.antt =====
-- The order of the command journal: frontend/src/lib/api/commands.ts's parseCommandPage.
use stechbaza_iot.Prelude.{
  Both, Each, IsDistinct, List, Option, String, [], arith, leb, leb→le, length, map, none, refl,
  some, subst, true, ◌∷◌, ◌≡◌, ◌≤◌, ◌⊎◌,
}
use stechbaza_iot.Api.Access.Fields.{invalid, require}
use stechbaza_iot.Api.Access.Fields.Checks.{require-ok}
use stechbaza_iot.Api.Commands.{Command, CommandCursor, commands_path, parse_command}
use stechbaza_iot.Api.Commands.Page.{
  before_key, check_order, command_cursor, is_after_boundary, is_before, micros, page_of,
  parse_command_page,
}
use stechbaza_iot.Api.Errors.{>>=-eq-ok, ok, ok-injective, traverse, traverse-ok}
use stechbaza_iot.Api.Inventory.Rows.{length-Both}
use stechbaza_iot.Host.{Host}
use stechbaza_iot.Js.Set.{is_distinct, is_distinct-IsDistinct}
use stechbaza_iot.Js.Text.{text_lt}
use stechbaza_iot.Js.Text.Order.{text_lt_trans}
use stechbaza_iot.Js.Value.{Items, Value, arr, elements}
use stechbaza_iot.Prelude.Int.{eq_of_parts, ℤ, ◌<ℤ◌}

same_time : (s t : ℤ) (o : Option ℤ) → o ≡ some s → o ≡ some t → s ≡ t
same_time s t o p q = cc

module _ ⦃h : Host⦄ where
  -- The command was created before the cursor, by its time in microseconds, and by its id at the
  -- same time.
  pub record IsBefore (c : Command) (cursor : CommandCursor) : Type 0 where
    pub time : ℤ
    pub boundary : ℤ
    pub has_time : micros c.created_at ≡ some time
    pub has_boundary : micros cursor.before_created_at ≡ some boundary
    pub earlier :
        (time <ℤ boundary)
        ⊎ ((time ≡ boundary) × (text_lt (h.lower c.id) (h.lower cursor.before_id) ≡ true))

  abbrev pub IsBefore? : Option CommandCursor → Command → Type 0
  IsBefore? none c = Unit
  IsBefore? (some cursor) c = IsBefore c cursor

  -- Every row comes before all the rows above it.
  abbrev pub IsDescending : List Command → Type 0
  IsDescending [] = Unit
  IsDescending (c ∷ rest) = Each (λ d. IsBefore d (command_cursor c)) rest × IsDescending rest

  before_key-IsBefore :
      (c : Command) (cursor : CommandCursor) (s t : Option ℤ)
      → micros c.created_at ≡ s
      → micros cursor.before_created_at ≡ t
      → before_key s (h.lower c.id) t (h.lower cursor.before_id) ≡ true
      → IsBefore c cursor
  before_key-IsBefore c cursor none t p q e = cc
  before_key-IsBefore c cursor (some s) none p q e = cc
  before_key-IsBefore c cursor (some s) (some t) p q e = record {
    time = s;
    boundary = t;
    has_time = p;
    has_boundary = q;
    earlier = ground (arith, eq_of_parts s t);
  }

  is_before-IsBefore :
      (c : Command) (cursor : CommandCursor) → is_before c cursor ≡ true → IsBefore c cursor
  unfolding is_before
  is_before-IsBefore c cursor e = before_key-IsBefore c cursor _ _ refl refl e

  IsBefore-trans :
      (c d : Command) (cursor : CommandCursor)
      → IsBefore c (command_cursor d)
      → IsBefore d cursor
      → IsBefore c cursor
  unfolding command_cursor
  IsBefore-trans c d cursor p q = record {
    time = p.time;
    boundary = q.boundary;
    has_time = p.has_time;
    has_boundary = q.has_boundary;
    earlier = ground (
      arith,
      same_time p.boundary q.time (micros d.created_at) p.has_boundary q.has_time,
      text_lt_trans (h.lower c.id) (h.lower d.id) (h.lower cursor.before_id),
    );
  }

  Each-trans :
      (c : Command) (cursor : CommandCursor) (rows : List Command)
      → IsBefore c cursor
      → Each (λ d. IsBefore d (command_cursor c)) rows
      → Each (λ d. IsBefore d cursor) rows
  Each-trans c cursor [] b e = tt
  Each-trans c cursor (d ∷ rows) b e =
      (IsBefore-trans d c cursor e.0 b, Each-trans c cursor rows b e.1)

  boundary-IsBefore :
      (c : Command) (cursor : Option CommandCursor)
      → is_after_boundary c cursor ≡ true
      → IsBefore? cursor c
  boundary-IsBefore c none e = tt
  boundary-IsBefore c (some cursor) e = is_before-IsBefore c cursor e

  Each-after :
      (c : Command) (cursor : Option CommandCursor) (rows : List Command)
      → IsBefore? cursor c
      → Each (λ d. IsBefore d (command_cursor c)) rows
      → Each (IsBefore? cursor) rows
  Each-after c none [] b e = tt
  Each-after c none (d ∷ rows) b e = (tt, Each-after c none rows tt e.1)
  Each-after c (some cursor) rows b e = Each-trans c cursor rows b e

  check_order-ok :
      (rows : List Command) (cursor : Option CommandCursor) {u : Unit {0}}
      → check_order rows cursor ≡ ok u
      → Each (IsBefore? cursor) rows × IsDescending rows
  unfolding check_order
  check_order-ok [] cursor e = (tt, tt)
  check_order-ok (c ∷ rest) cursor e =
      let (_, placed, more) =
        >>=-eq-ok (require (is_after_boundary c cursor) commands_path _) _ e in
      let first = boundary-IsBefore c cursor (require-ok _ _ _ placed) in
      let (below, descending) = check_order-ok rest (some (command_cursor c)) more in
      ((first, Each-after c cursor rest first below), (below, descending))

  -- What a page of the journal is that parseCommandPage accepts.
  pub record IsJournal (raw : Value) (device_id organization_id : String)
      (cursor : Option CommandCursor) (rows : List Command) : Type 0 where
    pub listed : Items
    pub is_list : raw ≡ arr listed
    pub bounded : length rows ≤ 21
    pub each_parsed :
        Both (λ v c. parse_command v device_id organization_id none ≡ ok c) (elements listed) rows
    pub distinct : IsDistinct (map (λ c. c.id) rows)
    pub below_cursor : Each (IsBefore? cursor) rows
    pub descending : IsDescending rows

  -- A page of commands is accepted only if it is a list of at most 21 commands, each accepted on its
  -- own, with different ids, all of them created before the cursor, and each created before all the
  -- rows above it.
  pub parse_command_page-IsJournal :
      (raw : Value) (device_id organization_id : String) (cursor : Option CommandCursor)
      (rows : List Command)
      → parse_command_page raw device_id organization_id cursor ≡ ok rows
      → IsJournal raw device_id organization_id cursor rows
  unfolding parse_command_page page_of invalid
  parse_command_page-IsJournal (arr xs) device_id organization_id cursor rows e =
      let (_, sized, e) = >>=-eq-ok (require (leb (length (elements xs)) 21) commands_path _) _ e in
      let (commands, mapped, e) = >>=-eq-ok (traverse _ (elements xs)) _ e in
      let (_, unique, e) =
        >>=-eq-ok (require (is_distinct (map (λ c. c.id) commands)) commands_path _) _ e in
      let (_, ordered, e) = >>=-eq-ok (check_order commands cursor) _ e in
      let parsed = traverse-ok _ (elements xs) commands mapped in
      let (below, descending) = check_order-ok commands cursor ordered in
      subst (IsJournal (arr xs) device_id organization_id cursor) (ok-injective e) (record {
        listed = xs;
        is_list = refl;
        bounded = omega (
          arith,
          leb→le _ _ (require-ok _ _ _ sized),
          length-Both _ (elements xs) commands parsed,
        );
        each_parsed = parsed;
        distinct = is_distinct-IsDistinct _ (require-ok _ _ _ unique);
        below_cursor = below;
        descending = descending;
      })
  parse_command_page-IsJournal raw device_id organization_id cursor rows e = cc
