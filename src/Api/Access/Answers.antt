-- ===== src/Api/Access/Answers.antt =====
-- frontend/src/lib/api/access.ts: the user, the organizations and what a user may do there.
pub mod Granted
mod Tests
use Prim.Native.String
use stechbaza_iot.Prelude.{
  Bool, List, Option, String, [], all, false, if◌then◌else◌, leb, length, map, none, set, some,
  str_eq, ◌++◌, ◌∷◌,
}
use stechbaza_iot.Api.Access.Fields.{
  invalid, invalid_details, require, require_record, required_date_time, required_string,
  required_uuid,
}
use stechbaza_iot.Api.Errors.{Result, ok, traverse, ◌>>=◌, ◌>>◌}
use stechbaza_iot.Host.{Host}
use stechbaza_iot.Js.Set.{set_of}
use stechbaza_iot.Js.Text.{member}
use stechbaza_iot.Js.Value.{
  Fields, Value, arr, bool, elements, end, field, get, is_null, is_nullish, obj, str,
}

abbrev pub permission_codes : List String
permission_codes =
    "organization.read" ∷ "site.read" ∷ "site.create" ∷ "device.read" ∷ "device.create"
    ∷ "telemetry.read" ∷ "event.read" ∷ "alarm.read" ∷ "notification.read" ∷ "alarm.acknowledge"
    ∷ "command.read" ∷ "command.execute" ∷ "capability.read" ∷ "capability.manage"
    ∷ "membership.read" ∷ "membership.manage" ∷ []

abbrev pub organization_roles : List String
organization_roles = "owner" ∷ "admin" ∷ "operator" ∷ "viewer" ∷ "service" ∷ []

abbrev pub platform_roles : List String
platform_roles = "user" ∷ "service_admin" ∷ "superadmin" ∷ []

pub record Membership : Type 0 where
  pub organization_id : String
  pub role : String

pub record CurrentUser : Type 0 where
  pub id : String
  pub email : String
  pub login_name : Option String
  pub display_name : String
  pub platform_role : String
  pub is_active : Bool
  pub auth_session_id : String
  pub auth_session_expires_at : String
  pub memberships : List Membership

pub record Organization : Type 0 where
  pub id : String
  pub name : String
  pub slug : String
  pub is_active : Bool
  pub created_at : String
  pub updated_at : String

pub record OrganizationAccess : Type 0 where
  pub organization_id : String
  pub platform_role : String
  pub organization_role : Option String
  pub permissions : List String

-- isPermissionCode(value)
unfoldable pub is_permission_code : Value → Bool
is_permission_code (str s) = member s permission_codes
is_permission_code v = false

abbrev pub plain_text : Value → String
plain_text (str s) = s
plain_text v = ""

abbrev me_path : String
me_path = "/api/v1/auth/me"

abbrev organizations_path : String
organizations_path = "/api/v1/organizations"

module _ ⦃h : Host⦄ where
  pub access_path : String → String
  access_path id = String.◌++◌ "/api/v1/organizations/" (String.◌++◌ (h.encode id) "/access")

  -- A text of the set
  unfoldable pub one_of : List String → Value → String → String → Result String
  one_of set (str s) path expected = if member s set then ok s else invalid path expected
  one_of set v path expected = invalid path expected

  unfoldable pub parse_platform_role : Value → String → Result String
  parse_platform_role v path = one_of platform_roles v path "platform_role"

  -- parseOrganizationRole(value, path) and, with `nullable`, parseOrganizationRole(value, path, true)
  pub parse_organization_role : Value → String → Result String
  parse_organization_role v path = one_of organization_roles v path "organization_role"

  unfoldable pub parse_nullable_role : Value → String → Result (Option String)
  parse_nullable_role v path =
      if is_null v then ok none else do role ← parse_organization_role v path; ok (some role)

  pub boolean_field : Fields → String → String → Result Bool
  boolean_field fields key path = elim (get fields key) [ bool b ↦ ok b | _ ↦ invalid path key ]

  unfoldable pub rows_or : Value → String → String → Result (List Value)
  rows_or (arr xs) path expected = ok (elements xs)
  rows_or v path expected = invalid path expected

  parse_membership : Value → Result Membership
  parse_membership v = do
    fields ← require_record v me_path "CurrentUserMembershipRead"
    organization_id ← required_uuid fields "organization_id" me_path
    role ← parse_organization_role (get fields "role") me_path
    ok (record { organization_id = organization_id; role = role })

  parse_login_name : Fields → Result (Option String)
  parse_login_name fields =
      if is_nullish (get fields "login_name")
      then ok none
      else do name ← required_string fields "login_name" me_path; ok (some name)

  text_field : Fields → String → String → Result String
  text_field fields key path = elim (get fields key) [ str s ↦ ok s | _ ↦ invalid path key ]

  pub parse_current_user : Value → Result CurrentUser
  parse_current_user value = do
    fields ← require_record value me_path "CurrentUserRead"
    rows ← rows_or (get fields "memberships") me_path "memberships[]"
    memberships ← traverse parse_membership rows
    is_active ← boolean_field fields "is_active" me_path
    id ← required_uuid fields "id" me_path
    email ← required_string fields "email" me_path
    login_name ← parse_login_name fields
    display_name ← text_field fields "display_name" me_path
    platform_role ← parse_platform_role (get fields "platform_role") me_path
    session ← required_uuid fields "auth_session_id" me_path
    expires ← required_date_time fields "auth_session_expires_at" me_path
    ok (record {
      id = id;
      email = email;
      login_name = login_name;
      display_name = display_name;
      platform_role = platform_role;
      is_active = is_active;
      auth_session_id = session;
      auth_session_expires_at = expires;
      memberships = memberships;
    })

  pub parse_organization : Value → String → Result Organization
  parse_organization value path = do
    fields ← require_record value path "OrganizationRead"
    is_active ← boolean_field fields "is_active" path
    id ← required_uuid fields "id" path
    name ← required_string fields "name" path
    slug ← required_string fields "slug" path
    created_at ← required_date_time fields "created_at" path
    updated_at ← required_date_time fields "updated_at" path
    ok (record {
      id = id;
      name = name;
      slug = slug;
      is_active = is_active;
      created_at = created_at;
      updated_at = updated_at;
    })

  pub parse_organization_list : Value → Result (List Organization)
  parse_organization_list value = do
    rows ← rows_or value organizations_path "OrganizationRead[]"
    require (leb (length rows) 100) organizations_path "OrganizationRead[]"
    traverse (λ item. parse_organization item organizations_path) rows

  mismatch : String → String → Value
  mismatch expected received =
      obj (field "expected" (str expected) (field "received" (str received) end))

  same_organization : String → String → String → Result (Unit {0})
  same_organization received expected path =
      if str_eq received expected then ok tt else invalid_details path (mismatch expected received)

  unfoldable pub parse_organization_access : Value → String → Result OrganizationAccess
  unfolding same_organization mismatch
  parse_organization_access value organization_id = do
    fields ← require_record value (access_path organization_id) "OrganizationAccessRead"
    received ← required_uuid fields "organization_id" (access_path organization_id)
    same_organization received organization_id (access_path organization_id)
    rows ← rows_or (get fields "permissions") (access_path organization_id) "permissions[]"
    require (all is_permission_code rows) (access_path organization_id) "permissions[]"
    platform_role ← parse_platform_role (get fields "platform_role") (access_path organization_id)
    role ← parse_nullable_role (get fields "organization_role") (access_path organization_id)
    ok (record {
      organization_id = received;
      platform_role = platform_role;
      organization_role = role;
      permissions = set_of (map plain_text rows);
    })
