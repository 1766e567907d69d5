-- ===== src/Db.antt =====
-- The database that the services of apps/api share: the rows of apps/api/prisma/schema.prisma, a
-- list for each table. Identifiers are numbers (the source's are UUIDs, which are only compared),
-- times are as in `Dates.Civil`, and a column that may be null is an option. Columns that no
-- modelled operation reads or writes are left out.
pub mod Action
use tax_professional_managem.Common.{ℕ, Bool, List, Option, String}
use tax_professional_managem.Common.Text.{Text}
use tax_professional_managem.Types.{
  EntityType, ClientStatus, TaskStatus, TaskPriority, ComplianceStatus, CredentialStatus,
  AuditAction,
}
use tax_professional_managem.Types.Rbac.{Permission}
use tax_professional_managem.DueRules.{DueRule}

pub data UserStatus : Type 0 where
  active suspended pending_verification : UserStatus

pub data MemberStatus : Type 0 where
  active invited disabled : MemberStatus

pub data PortalSessionStatus : Type 0 where
  pending credential_issued awaiting_user_challenge completed failed expired : PortalSessionStatus

pub record User : Type 0 where
  pub id : ℕ
  pub email : String
  pub password_hash : String
  pub full_name : String
  pub status : UserStatus
  pub last_login_at : Option ℕ

pub record Organization : Type 0 where
  pub id : ℕ
  pub name : String
  pub slug : String

-- `permissions` are those of the table `role_permissions`.
pub record Role : Type 0 where
  pub id : ℕ
  pub organization_id : Option ℕ
  pub name : String
  pub is_system : Bool
  pub permissions : List Permission

pub record Member : Type 0 where
  pub id : ℕ
  pub organization_id : ℕ
  pub user_id : ℕ
  pub role_id : ℕ
  pub status : MemberStatus
  pub invited_by : Option ℕ
  pub joined_at : Option ℕ

pub record Session : Type 0 where
  pub id : ℕ
  pub user_id : ℕ
  pub organization_id : Option ℕ
  pub last_seen_at : ℕ
  pub expires_at : ℕ
  pub revoked_at : Option ℕ

pub record RefreshToken : Type 0 where
  pub id : ℕ
  pub session_id : ℕ
  pub token_hash : String
  pub family_id : ℕ
  pub expires_at : ℕ
  pub revoked_at : Option ℕ
  pub replaced_by_id : Option ℕ

pub record PasswordResetToken : Type 0 where
  pub id : ℕ
  pub user_id : ℕ
  pub token_hash : String
  pub expires_at : ℕ
  pub used_at : Option ℕ

-- `succeeded` is `result: "success"`.
pub record AuditLog : Type 0 where
  pub organization_id : Option ℕ
  pub actor_user_id : Option ℕ
  pub action : AuditAction
  pub resource_type : String
  pub resource_id : Option ℕ
  pub succeeded : Bool
  pub ip_address : Option String
  pub user_agent : Option String
  pub created_at : ℕ

pub record Client : Type 0 where
  pub id : ℕ
  pub organization_id : ℕ
  pub name : String
  pub entity_type : EntityType
  pub status : ClientStatus
  pub pii_ciphertext : Option Text
  pub pii_key_id : Option ℕ
  pub pan_index : Option String
  pub gstin_index : Option String
  pub tan_index : Option String
  pub cin_index : Option String
  pub deleted_at : Option ℕ

pub record ClientContact : Type 0 where
  pub id : ℕ
  pub client_id : ℕ
  pub is_primary : Bool
  pub pii_ciphertext : Option Text
  pub pii_key_id : Option ℕ

pub record ClientAssignment : Type 0 where
  pub id : ℕ
  pub client_id : ℕ
  pub organization_member_id : ℕ
  pub assigned_role : Option String
  pub unassigned_at : Option ℕ

pub record DataKey : Type 0 where
  pub id : ℕ
  pub organization_id : ℕ
  pub version : ℕ
  pub wrapped_key : String
  pub kek_version : ℕ

pub record OrganizationKey : Type 0 where
  pub key_id : ℕ
  pub encryption_key : String
  pub index_key : String

-- An entry of the map `byId` of data-protection/organization-key.service.ts.
pub record CachedKey : Type 0 where
  pub key : OrganizationKey
  pub expires_at : ℕ

-- An entry of its map `activeByOrg`.
pub record ActiveKey : Type 0 where
  pub organization_id : ℕ
  pub key_id : ℕ

pub record DocumentCategory : Type 0 where
  pub id : ℕ
  pub organization_id : Option ℕ
  pub name : String

pub record Document : Type 0 where
  pub id : ℕ
  pub organization_id : ℕ
  pub client_id : Option ℕ
  pub category_id : Option ℕ
  pub file_name : String
  pub storage_key : ℕ
  pub mime_type : String
  pub size_bytes : ℕ
  pub checksum_sha256 : String
  pub tags : List Text
  pub uploaded_by_id : ℕ
  pub deleted_at : Option ℕ

pub record Portal : Type 0 where
  pub id : ℕ
  pub code : String
  pub name : String
  pub is_active : Bool

pub record PortalAccount : Type 0 where
  pub id : ℕ
  pub organization_id : ℕ
  pub client_id : ℕ
  pub portal_id : ℕ
  pub identifier : String
  pub display_username : Option String

-- The five encryption columns of a credential.
pub record EncryptedCredential : Type 0 where
  pub payload_ciphertext : Text
  pub encryption_nonce : Text
  pub wrapped_data_key : String
  pub key_version : ℕ
  pub algorithm : String

pub record Credential : Type 0 where
  pub id : ℕ
  pub organization_id : ℕ
  pub portal_account_id : ℕ
  pub encrypted : EncryptedCredential
  pub status : CredentialStatus
  pub last_used_at : Option ℕ
  pub last_rotated_at : Option ℕ
  pub created_by_id : ℕ
  pub deleted_at : Option ℕ

pub record CredentialAccessLog : Type 0 where
  pub credential_id : ℕ
  pub organization_id : ℕ
  pub user_id : ℕ
  pub action : String
  pub portal_session_id : Option ℕ

pub record PortalSession : Type 0 where
  pub id : ℕ
  pub organization_id : ℕ
  pub client_id : ℕ
  pub credential_id : ℕ
  pub initiated_by_id : ℕ
  pub status : PortalSessionStatus
  pub one_time_token_hash : String
  pub one_time_token_used_at : Option ℕ
  pub expires_at : ℕ

pub record PortalSessionEvent : Type 0 where
  pub portal_session_id : ℕ
  pub event_type : String

-- `is_true` tells whether the JSON value is the literal `true`.
pub record Setting : Type 0 where
  pub organization_id : ℕ
  pub key : String
  pub is_true : Bool

pub record ComplianceType : Type 0 where
  pub id : ℕ
  pub organization_id : Option ℕ
  pub code : String
  pub name : String
  pub default_due_rule : Option DueRule

pub record ComplianceItem : Type 0 where
  pub id : ℕ
  pub organization_id : ℕ
  pub client_id : ℕ
  pub compliance_type_id : ℕ
  pub financial_year : Text
  pub assessment_year : Option Text
  pub period : Option Text
  pub due_date : ℕ
  pub filing_date : Option ℕ
  pub status : ComplianceStatus
  pub assigned_to : Option ℕ
  pub notes : Option String

pub record Task : Type 0 where
  pub id : ℕ
  pub organization_id : ℕ
  pub created_by_id : ℕ
  pub title : String
  pub description : Option String
  pub client_id : Option ℕ
  pub portal_account_id : Option ℕ
  pub priority : TaskPriority
  pub status : TaskStatus
  pub due_date : Option ℕ
  pub assigned_to : Option ℕ
  pub parent_task_id : Option ℕ
  pub deleted_at : Option ℕ

pub record TaskComment : Type 0 where
  pub task_id : ℕ
  pub author_id : ℕ
  pub body : String

pub record Notification : Type 0 where
  pub id : ℕ
  pub organization_id : ℕ
  pub user_id : ℕ
  pub kind : String
  pub title : Text
  pub body : Text
  pub related_entity_type : String
  pub related_entity_id : ℕ
  pub read_at : Option ℕ
  pub sent_at : ℕ
  pub dedupe_key : Option Text

-- `next_id` stands for `uuid()`: the identifier of the next row that is created. The last two
-- fields are not tables but what the process remembers of the data keys, and `objects` are the
-- keys under which the object storage holds a file.
pub record Db : Type 0 where
  pub next_id : ℕ
  pub users : List User
  pub organizations : List Organization
  pub roles : List Role
  pub members : List Member
  pub sessions : List Session
  pub refresh_tokens : List RefreshToken
  pub reset_tokens : List PasswordResetToken
  pub audit_logs : List AuditLog
  pub clients : List Client
  pub portal_accounts : List PortalAccount
  pub credentials : List Credential
  pub access_logs : List CredentialAccessLog
  pub portal_sessions : List PortalSession
  pub portal_events : List PortalSessionEvent
  pub settings : List Setting
  pub compliance_types : List ComplianceType
  pub compliance_items : List ComplianceItem
  pub tasks : List Task
  pub comments : List TaskComment
  pub notifications : List Notification
  pub contacts : List ClientContact
  pub assignments : List ClientAssignment
  pub data_keys : List DataKey
  pub categories : List DocumentCategory
  pub documents : List Document
  pub portals : List Portal
  pub objects : List ℕ
  pub cached_keys : List CachedKey
  pub active_keys : List ActiveKey
