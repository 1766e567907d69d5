-- ===== src/Tests.antt =====
-- A firm with one user and one client, on which the theorems are tried; the modules below hold the
-- instances, one for each part of the program.
pub mod Tokens
pub mod Logins
pub mod Portals
pub mod Filings
pub mod Calendars
pub mod Deadlines
pub mod Keys
pub mod Lists
pub mod Uploads
pub mod Requests
use Prim.Native.String.{◌++◌ as str_append}
use tax_professional_managem.Common.{
  ℕ, Bool, true, false, List, [], ◌∷◌, Option, none, some, String, str_eq, if◌then◌else◌,
}
use tax_professional_managem.Common.Text.{codes}
use tax_professional_managem.Types.{EntityType, ClientStatus, CredentialStatus}
use tax_professional_managem.Types.Rbac.{SystemRole, default_role_permissions}
use tax_professional_managem.DueRules.{DueRule}
use tax_professional_managem.DueRules.Catalog.{annual}
use tax_professional_managem.Db.{
  Db, User, UserStatus, Role, Member, MemberStatus, Session, RefreshToken, PasswordResetToken,
  Client, PortalAccount, EncryptedCredential, Credential, PortalSession, PortalSessionStatus,
  ComplianceType,
}
use tax_professional_managem.Db.Action.{RequestMeta}
use tax_professional_managem.Tokens.{TokenEnv, Claims}
use tax_professional_managem.Auth.{AuthEnv}
use tax_professional_managem.Credentials.{CryptoEnv, Plaintext}
use tax_professional_managem.Compliance.{ComplianceEnv}

abbrev pub token_env : TokenEnv
token_env = record {
  hash = λ s. str_append "#" s;
  sign = λ c. "signed";
  refresh_token_ttl_days = 30;
}

abbrev pub auth_env : AuthEnv
auth_env = record {
  tokens = token_env;
  argon2_hash = λ salt s. str_append "$" s;
  argon2_verify = λ h s. str_eq h (str_append "$" s);
  pepper = "pepper";
  web_app_origin = "https://example.test";
}

-- An encryption that only wraps what it is given.
abbrev pub crypto_env : CryptoEnv
crypto_env = record {
  auth = auth_env;
  encrypt = λ random p. some (record {
    payload_ciphertext = [];
    encryption_nonce = [];
    wrapped_data_key = p.password;
    key_version = 1;
    algorithm = p.username;
  });
  decrypt = λ e. some (record { username = e.algorithm; password = e.wrapped_data_key });
}

abbrev pub compliance_env : ComplianceEnv
compliance_env = record {
  decrypt_client = λ c. some (record { gstin = none; tan = none });
  type_before = λ a b. true;
}

abbrev pub meta : RequestMeta
meta = record { ip = none; user_agent = none }

abbrev pub user : User
user = record {
  id = 1;
  email = "a@example.test";
  password_hash = "$rightpepper";
  full_name = "A";
  status = UserStatus.active;
  last_login_at = none;
}

abbrev pub role : Role
role = record {
  id = 3;
  organization_id = none;
  name = "STAFF";
  is_system = true;
  permissions = default_role_permissions SystemRole.staff;
}

-- The platform's own role, which is in the scope of every organization.
abbrev pub platform_role : Role
platform_role = record {
  id = 14;
  organization_id = none;
  name = "SUPER_ADMIN";
  is_system = true;
  permissions = [];
}

abbrev pub member : Member
member = record {
  id = 4;
  organization_id = 2;
  user_id = 1;
  role_id = 3;
  status = MemberStatus.active;
  invited_by = none;
  joined_at = some 0;
}

abbrev pub session : Session
session = record {
  id = 5;
  user_id = 1;
  organization_id = some 2;
  last_seen_at = 0;
  expires_at = 1000;
  revoked_at = none;
}

abbrev pub refresh_token : RefreshToken
refresh_token = record {
  id = 6;
  session_id = 5;
  token_hash = "#old";
  family_id = 7;
  expires_at = 1000;
  revoked_at = none;
  replaced_by_id = none;
}

abbrev pub reset_token : PasswordResetToken
reset_token = record {
  id = 8;
  user_id = 1;
  token_hash = "#link";
  expires_at = 1000;
  used_at = none;
}

abbrev pub client : Client
client = record {
  id = 9;
  organization_id = 2;
  name = "B";
  entity_type = EntityType.individual;
  status = ClientStatus.active;
  pii_ciphertext = none;
  pii_key_id = none;
  pan_index = none;
  gstin_index = none;
  tan_index = none;
  cin_index = none;
  deleted_at = none;
}

abbrev pub portal_account : PortalAccount
portal_account = record {
  id = 10;
  organization_id = 2;
  client_id = 9;
  portal_id = 14;
  identifier = "AB";
  display_username = none;
}

abbrev pub credential : Credential
credential = record {
  id = 11;
  organization_id = 2;
  portal_account_id = 10;
  encrypted = record {
    payload_ciphertext = [];
    encryption_nonce = [];
    wrapped_data_key = "secret";
    key_version = 1;
    algorithm = "b";
  };
  status = CredentialStatus.active;
  last_used_at = none;
  last_rotated_at = none;
  created_by_id = 1;
  deleted_at = none;
}

abbrev pub portal_session : PortalSession
portal_session = record {
  id = 12;
  organization_id = 2;
  client_id = 9;
  credential_id = 11;
  initiated_by_id = 1;
  status = PortalSessionStatus.pending;
  one_time_token_hash = "#once";
  one_time_token_used_at = none;
  expires_at = 1000;
}

-- An income tax return, due on the last of July.
abbrev pub return_type : ComplianceType
return_type = record {
  id = 13;
  organization_id = none;
  code = "ITR";
  name = "Income tax return";
  default_due_rule = some (annual 7 31 1);
}

abbrev pub firm : Db
firm = record {
  next_id = 20;
  users = user ∷ [];
  organizations = [];
  roles = role ∷ platform_role ∷ [];
  members = member ∷ [];
  sessions = session ∷ [];
  refresh_tokens = refresh_token ∷ [];
  reset_tokens = reset_token ∷ [];
  audit_logs = [];
  clients = client ∷ [];
  portal_accounts = portal_account ∷ [];
  credentials = credential ∷ [];
  access_logs = [];
  portal_sessions = portal_session ∷ [];
  portal_events = [];
  settings = [];
  compliance_types = return_type ∷ [];
  compliance_items = [];
  tasks = [];
  comments = [];
  notifications = [];
  contacts = [];
  assignments = [];
  data_keys = [];
  categories = [];
  documents = [];
  portals = [];
  objects = [];
  cached_keys = [];
  active_keys = [];
}
