-- ===== src/Api/Access/Answers/Tests.antt =====
-- An answer on the access of a user for frontend/src/lib/api/access.ts.
use stechbaza_iot.Prelude.{List, String, [], none, refl, ◌∷◌, ◌≡◌}
use stechbaza_iot.Api.Access.Answers.{
  OrganizationAccess, access_path, is_permission_code, one_of, parse_nullable_role,
  parse_organization_access, parse_platform_role, rows_or, same_organization,
}
use stechbaza_iot.Api.Access.Answers.Granted.{
  IsGranted, IsSent, parse_organization_access-IsGranted,
}
use stechbaza_iot.Api.Access.Fields.{
  is_uuid, require, require_record, required_string, required_uuid, uuid_pattern,
}
use stechbaza_iot.Api.Errors.{ok}
use stechbaza_iot.Host.Sample.{sample}
use stechbaza_iot.Js.Set.{set_of}
use stechbaza_iot.Js.Value.{Value, arr, end, field, get, items, null, obj, str}

abbrev organization : String
organization = "22222222-2222-4222-8222-222222222222"

abbrev access_value : Value
access_value = obj (
    field "organization_id" (str organization) (
      field "permissions"
        (arr (items (str "site.read" ∷ str "command.execute" ∷ str "site.read" ∷ [])))
        (field "platform_role" (str "user") (field "organization_role" null end))))

abbrev access : OrganizationAccess
access = record {
  organization_id = organization;
  platform_role = "user";
  organization_role = none;
  permissions = "site.read" ∷ "command.execute" ∷ [];
}

access-parsed : parse_organization_access access_value organization ≡ ok access
unfolding parse_organization_access same_organization parse_platform_role parse_nullable_role one_of
    rows_or is_permission_code required_uuid required_string is_uuid require require_record get
    set_of access_path uuid_pattern
access-parsed = refl

parse_organization_access-IsGranted_example :
    (sent : List String) × IsSent access_value sent × IsGranted organization sent access
parse_organization_access-IsGranted_example =
    parse_organization_access-IsGranted access_value organization access access-parsed
