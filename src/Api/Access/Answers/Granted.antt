-- ===== src/Api/Access/Answers/Granted.antt =====
-- What a user is granted by an answer that frontend/src/lib/api/access.ts accepts.
use stechbaza_iot.Prelude.{
  &&-eq-true, Each, IsDistinct, List, Option, String, [], all, ap, arith, refl, ◌∙◌, eq_iff,
  if-cases, if◌then◌else◌, inl, inr, map, none, some, str_eq, subst, true, ◌∷◌, ◌≡◌,
}
use stechbaza_iot.Api.Access.Answers.{
  OrganizationAccess, access_path, is_permission_code, mismatch, one_of, organization_roles,
  parse_nullable_role, parse_organization_access, parse_organization_role, parse_platform_role,
  permission_codes, plain_text, platform_roles, rows_or, same_organization,
}
use stechbaza_iot.Api.Access.Fields.{
  invalid, invalid_details, require, require_record, required_uuid,
}
use stechbaza_iot.Api.Access.Fields.Checks.{require-ok, require_record-ok}
use stechbaza_iot.Api.Errors.{>>=-eq-ok, ok, ok-injective}
use stechbaza_iot.Host.{Host}
use stechbaza_iot.Js.Set.Members.{member-set_of, set_of-IsDistinct}
use stechbaza_iot.Js.Text.{member}
use stechbaza_iot.Js.Value.{Fields, Items, Value, arr, elements, get, obj, is_null, str}

abbrev pub IsKnownRole : Option String → Type 0
IsKnownRole none = Unit
IsKnownRole (some role) = member role organization_roles ≡ true

-- The answer is an object whose permissions are these texts.
pub record IsSent (value : Value) (sent : List String) : Type 0 where
  pub fields : Fields
  pub listed : Items
  pub answered : value ≡ obj fields
  pub has_listed : get fields "permissions" ≡ arr listed
  pub texts : elements listed ≡ map str sent

-- The rights are of the organization that was asked for, under known roles; each is a known code and
-- comes once; and they are the codes that the answer has.
pub record IsGranted (asked : String) (sent : List String) (a : OrganizationAccess) : Type 0 where
  pub same_organization : a.organization_id ≡ asked
  pub known_platform_role : member a.platform_role platform_roles ≡ true
  pub known_role : IsKnownRole a.organization_role
  pub once : IsDistinct a.permissions
  pub known : Each (λ c. member c permission_codes ≡ true) sent
  pub those_sent : (c : String) → member c a.permissions ≡ member c sent

all-known :
    (rows : List Value)
    → all is_permission_code rows ≡ true
    → Each (λ c. member c permission_codes ≡ true) (map plain_text rows)
unfolding is_permission_code
all-known [] h = tt
all-known (str s ∷ rows) h =
    let (this, rest) =
      &&-eq-true {a = member s permission_codes} {b = all is_permission_code rows} h in
    (this, all-known rows rest)
all-known (v ∷ rows) h = cc

all-texts :
    (rows : List Value) → all is_permission_code rows ≡ true → rows ≡ map str (map plain_text rows)
unfolding is_permission_code
all-texts [] h = refl
all-texts (str s ∷ rows) h =
    let (this, rest) =
      &&-eq-true {a = member s permission_codes} {b = all is_permission_code rows} h in
    ap (λ l. str s ∷ l) (all-texts rows rest)
all-texts (v ∷ rows) h = cc

module _ ⦃h : Host⦄ where
  rows_or-ok :
      (v : Value) (path expected : String) (rows : List Value)
      → rows_or v path expected ≡ ok rows
      → (listed : Items) × (v ≡ arr listed) × (elements listed ≡ rows)
  unfolding rows_or invalid
  rows_or-ok (arr xs) path expected rows e = (xs, refl, ok-injective e)
  rows_or-ok v path expected rows e = cc

  one_of-ok :
      (set : List String) (v : Value) (path expected s : String)
      → one_of set v path expected ≡ ok s
      → member s set ≡ true
  unfolding one_of invalid
  one_of-ok set (str t) path expected s e = ground arith
  one_of-ok set v path expected s e = cc

  same_organization-ok :
      (received asked path : String) {u : Unit {0}}
      → (if str_eq received asked then ok tt else invalid_details path (mismatch asked received))
        ≡ ok u
      → str_eq received asked ≡ true
  unfolding invalid_details
  same_organization-ok received asked path e = ground arith

  parse_nullable_role-ok :
      (v : Value) (path : String) (o : Option String)
      → parse_nullable_role v path ≡ ok o
      → IsKnownRole o
  unfolding parse_nullable_role parse_organization_role
  parse_nullable_role-ok v path none e = tt
  parse_nullable_role-ok v path (some role) e = elim (if-cases (is_null v) e) [
    | inl same ↦ cc
    | inr e ↦
        let (r, known, e) = >>=-eq-ok (one_of organization_roles v path "organization_role") _ e in
        subst (λ o. IsKnownRole o) (ok-injective e) (one_of-ok organization_roles v path _ r known)
  ]

  -- The rights that an answer of the backend grants are of the organization that was asked for,
  -- under roles that the client knows; the permissions of the answer are known codes only, and
  -- the rights have each of them once, and no other.
  pub parse_organization_access-IsGranted :
      (value : Value) (asked : String) (a : OrganizationAccess)
      → parse_organization_access value asked ≡ ok a
      → (sent : List String) × IsSent value sent × IsGranted asked sent a
  unfolding parse_organization_access same_organization parse_platform_role
  parse_organization_access-IsGranted value asked a e =
      let path = access_path asked in
      let (fields, is_object, e) = >>=-eq-ok (require_record value path _) _ e in
      let (received, _, e) = >>=-eq-ok (required_uuid fields "organization_id" path) _ e in
      let (_, same, e) =
        >>=-eq-ok
          (if str_eq received asked then ok tt else invalid_details path (mismatch asked received))
          _ e in
      let (rows, are_rows, e) =
        >>=-eq-ok (rows_or (get fields "permissions") path "permissions[]") _ e in
      let (_, codes_known, e) =
        >>=-eq-ok (require (all is_permission_code rows) path "permissions[]") _ e in
      let (platform, platform_known, e) =
        >>=-eq-ok (one_of platform_roles (get fields "platform_role") path "platform_role") _ e in
      let (role, role_known, e) =
        >>=-eq-ok (parse_nullable_role (get fields "organization_role") path) _ e in
      let (listed, has_listed, same_rows) = rows_or-ok _ _ _ rows are_rows in
      (
        map plain_text rows,
        record {
          fields = fields;
          listed = listed;
          answered = require_record-ok _ _ _ is_object;
          has_listed = has_listed;
          texts = same_rows ∙ all-texts rows (require-ok _ _ _ codes_known);
        },
        subst (IsGranted asked (map plain_text rows)) (ok-injective e) (record {
          same_organization =
              (eq_iff received asked).0 (same_organization-ok received asked path same);
          known_platform_role = one_of-ok platform_roles _ path _ platform platform_known;
          known_role = parse_nullable_role-ok _ path role role_known;
          once = set_of-IsDistinct (map plain_text rows);
          known = all-known rows (require-ok _ _ _ codes_known);
          those_sent = λ c. member-set_of c (map plain_text rows);
        }),
      )
