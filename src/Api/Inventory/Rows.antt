-- ===== src/Api/Inventory/Rows.antt =====
-- What frontend/src/lib/api/inventory.ts accepts of the backend's answers.
use stechbaza_iot.Prelude.{
  Both, IsDistinct, List, Option, String, [], ap, arith, eq_iff, is_some, leb, leb→le, length, map,
  none, not, refl, some, str_eq, subst, suc, true, ℕ, ◌<◌, ◌||◌, ◌∷◌, ◌≡◌, ◌≢◌, ◌≤◌,
}
use stechbaza_iot.Api.Access.Fields.{
  invalid, require, require_record, required_string, required_uuid,
}
use stechbaza_iot.Api.Access.Fields.Checks.{require-ok}
use stechbaza_iot.Api.Errors.{>>=-eq-ok, Result, ok, ok-injective, traverse, traverse-ok}
use stechbaza_iot.Api.Inventory.{
  Availability, availability_path, boolean_value, elapsed_seconds, matching_id, nullable_date,
  page_rows, parse_availability, parse_page, positive_integer,
}
use stechbaza_iot.Host.{Host}
use stechbaza_iot.Js.Number.{
  Number, dyadic, is_finite, max_safe, nat, num_le, num_lt, safe_integer?,
}
use stechbaza_iot.Js.Set.{is_distinct, is_distinct-IsDistinct}
use stechbaza_iot.Js.Value.{Items, Value, arr, elements, get, num}
use stechbaza_iot.Prelude.Int.{negsuc, pos}

-- What a page is that parsePage accepts: a list within the limit, whose rows are parsed one by
-- one and in order, with different ids.
pub record IsPage {A : Type 0} (id : A → String) (value : Value) (parse : Value → Result A)
    (limit : ℕ) (rows : List A) : Type 0 where
  pub listed : Items
  pub is_list : value ≡ arr listed
  pub bounded : length rows ≤ limit
  pub in_order : Both (λ v row. parse v ≡ ok row) (elements listed) rows
  pub distinct : IsDistinct (map id rows)

pub length-Both :
    {A B : Type 0} (R : A → B → Type 0) (xs : List A) (ys : List B)
    → Both R xs ys
    → length xs ≡ length ys
length-Both R [] [] h = refl
length-Both R [] (y ∷ ys) h = absurd h
length-Both R (x ∷ xs) [] h = absurd h
length-Both R (x ∷ xs) (y ∷ ys) h = ap suc (length-Both R xs ys h.1)

module _ ⦃h : Host⦄ {A : Type 0} (id : A → String) (parse : Value → Result A) (limit : ℕ) where
  page_rows-ok :
      (rows : List Value) (l : List A)
      → page_rows id (some rows) parse limit ≡ ok l
      → (leb (length rows) limit ≡ true)
        × Both (λ v row. parse v ≡ ok row) rows l
        × IsDistinct (map id l)
  unfolding page_rows
  page_rows-ok rows l e =
      let (_, sized, more) =
        >>=-eq-ok (require (leb (length rows) limit) "/api/v1" "bounded page") _ e in
      let (parsed, mapped, rest) = >>=-eq-ok (traverse parse rows) _ more in
      let (_, unique, same) =
        >>=-eq-ok (require (is_distinct (map id parsed)) "/api/v1" "unique ids") _ rest in
      let bounds = require-ok _ _ _ sized in
      let distinct = is_distinct-IsDistinct (map id parsed) (require-ok _ _ _ unique) in
      subst
        (λ k.
          (leb (length rows) limit ≡ true)
          × Both (λ v row. parse v ≡ ok row) rows k
          × IsDistinct (map id k))
        (ok-injective same) (bounds, traverse-ok parse rows parsed mapped, distinct)

  page_rows-none {ℓ} : {B : Type ℓ} (l : List A) → page_rows id none parse limit ≡ ok l → B
  unfolding page_rows invalid
  page_rows-none l e = cc

  -- A page is accepted only if it is a list within the limit, whose rows the parser of one row
  -- accepts in this order, and no two rows have the same id.
  pub parse_page-IsPage :
      (value : Value) (l : List A)
      → parse_page id value parse limit ≡ ok l
      → IsPage id value parse limit l
  unfolding parse_page
  parse_page-IsPage (arr xs) l e =
      let (sized, parsed, distinct) = page_rows-ok (elements xs) l e in
      record {
        listed = xs;
        is_list = refl;
        bounded = omega (arith, leb→le _ _ sized, length-Both _ (elements xs) l parsed);
        in_order = parsed;
        distinct = distinct;
      }
  parse_page-IsPage v l e = page_rows-none l e

-- A number from 0.
abbrev pub IsElapsed : Number → Type 0
IsElapsed (dyadic (pos n) k) = Unit
IsElapsed x = ⊥

abbrev pub IsElapsed? : Option Number → Type 0
IsElapsed? none = Unit
IsElapsed? (some x) = IsElapsed x

pub record IsPresence (id uid : String) (a : Availability) : Type 0 where
  pub same_device : a.device_id ≡ id
  pub same_uid : a.uid ≡ uid
  pub positive_timeout : 0 < a.timeout_seconds
  pub safe_timeout : a.timeout_seconds ≤ max_safe
  pub elapsed : IsElapsed? a.seconds_since_seen
  pub seen_if_online : a.online ≡ true → a.last_seen_at ≢ none

module _ ⦃h : Host⦄ where
  num_le-IsElapsed : (x : Number) → is_finite x ≡ true → num_le (nat 0) x ≡ true → IsElapsed x
  unfolding is_finite num_le num_lt
  num_le-IsElapsed (dyadic (pos n) k) f l = tt
  num_le-IsElapsed (dyadic (negsuc n) k) f l = ground arith
  num_le-IsElapsed x f l = cc

  elapsed_seconds-ok :
      (v : Value) (path : String) (o : Option Number) → elapsed_seconds v path ≡ ok o → IsElapsed? o
  unfolding elapsed_seconds invalid
  elapsed_seconds-ok v path none e = tt
  elapsed_seconds-ok (num x) path (some y) e = ground (arith, num_le-IsElapsed x)
  elapsed_seconds-ok v path (some y) e = cc

  positive_integer-ok :
      (v : Value) (path expected : String) (n : ℕ)
      → positive_integer v path expected ≡ ok n
      → (0 < n) × (n ≤ max_safe)
  unfolding positive_integer invalid safe_integer?
  positive_integer-ok (num x) path expected n e = ground arith
  positive_integer-ok v path expected n e = cc

  -- A presence that is accepted is of the device that was asked for, its timeout is a positive safe
  -- integer, the time since it was seen is not negative, and a device that is online was seen.
  pub parse_availability-IsPresence :
      (value : Value) (id uid : String) (a : Availability)
      → parse_availability value id uid ≡ ok a
      → IsPresence id uid a
  unfolding parse_availability matching_id
  parse_availability-IsPresence value id uid a e =
      let path = availability_path id in
      let (fields, _, e) = >>=-eq-ok (require_record value path _) _ e in
      let (online, _, e) = >>=-eq-ok (boolean_value (get fields "online") path _) _ e in
      let (device, _, e) = >>=-eq-ok (required_uuid fields "device_id" path) _ e in
      let (_, same_device, e) = >>=-eq-ok (require (str_eq device id) path _) _ e in
      let (actual, _, e) = >>=-eq-ok (required_string fields "uid" path) _ e in
      let (_, same_uid, e) = >>=-eq-ok (require (str_eq actual uid) path _) _ e in
      let (seconds, positive, e) =
        >>=-eq-ok (positive_integer (get fields "timeout_seconds") path _) _ e in
      let (elapsed, finite, e) =
        >>=-eq-ok (elapsed_seconds (get fields "seconds_since_seen") path) _ e in
      let (seen, _, e) = >>=-eq-ok (nullable_date fields "last_seen_at" path) _ e in
      let (_, coherent, e) = >>=-eq-ok (require (is_some seen || not online) path _) _ e in
      let range = positive_integer-ok _ _ _ seconds positive in
      subst (IsPresence id uid) (ok-injective e) (record {
        same_device = (eq_iff device id).0 (require-ok _ _ _ same_device);
        same_uid = (eq_iff actual uid).0 (require-ok _ _ _ same_uid);
        positive_timeout = range.0;
        safe_timeout = range.1;
        elapsed = elapsed_seconds-ok _ _ elapsed finite;
        seen_if_online = λ on none_seen. ground (arith, require-ok _ _ _ coherent);
      })
