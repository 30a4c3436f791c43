-- ===== src/Resolvers/Sharing/Managing.antt =====
-- apps/api/src/resolvers/sharing.ts: making, revoking, listing and reporting shares.
use ddrive.Prelude.{
  ℕ, Bool, true, false, ◌&&◌, List, [], ◌∷◌, ◌++◌, Option, none, some, String, map, str_eq,
  if◌then◌else◌, filter, find,
}
use mathlib.Core.List.{reverse}
use ddrive.Prelude.Sort.{sort_by}
use ddrive.Prelude.Tables.{update_many}
use ddrive.Storage.Rows.{truthy}
use ddrive.Resolvers.Folders.{Folder, opt_eq}
use ddrive.Database.Rows.{
  File, ShareType, file_share, folder_share, active, revoked, Share, ReportStatus, opened,
  ShareReport, Db,
}
use ddrive.Database.Actions.{Action, pure, gets, or_raise, ◌>>=◌, ◌>>◌, modify}
use ddrive.Database.Cascades.{update_share}
use ddrive.Resolvers.Sharing.{Hashing, find_share, is_live}

-- The arguments that the ways to make a share have in common.
pub record ShareInput : Type 0 where
  pub allow_content : Bool
  pub allow_preview : Bool
  pub expires_at : Option ℕ
  pub max_views : Option ℕ

module _ (h : Hashing) where
  abbrev pub shareable : String → String → File → Bool
  shareable owner file_id f = str_eq f.id file_id && (str_eq f.owner_user_id owner && is_live f)

  -- The new row that the ways to make a share write.
  abbrev pub new_share :
      String
      → String
      → String
      → Option String
      → Option String
      → ShareType
      → ShareInput
      → ℕ
      → Option String
      → Option String
      → Share
  new_share share_id token owner file_id folder_id type input now session label = record {
    share_id = share_id;
    owner_user_id = owner;
    file_id = file_id;
    folder_id = folder_id;
    share_type = type;
    token_hash = h.sha256_hex token;
    allow_content = input.allow_content;
    allow_preview = input.allow_preview;
    status = active;
    expires_at = input.expires_at;
    max_views = input.max_views;
    view_count = 0;
    created_at = now;
    revoked_at = none;
    anon_session_id = session;
    anon_token = if truthy session then some token else none;
    label = label;
  }

  abbrev add_share : Share → Db → Db
  add_share s db = record db { shares = db.shares ++ s ∷ [] }

  unfoldable pub create_share :
      String → String → String → String → ShareInput → ℕ → Action (String × String)
  create_share share_id token owner file_id input now = do
    or_raise (← gets (λ (db : Db). find (shareable owner file_id) db.files))
        "File not found or not ready"
    modify (
        add_share
          (new_share share_id token owner (some file_id) none file_share input now none none))
    pure (share_id, token)

  unfoldable pub create_anonymous_share :
      String
      → String
      → String
      → ShareInput
      → ℕ
      → Option String
      → Option String
      → Action (String × String)
  create_anonymous_share share_id token file_id input now session label = do
    f ←
        or_raise
          (← gets (λ (db : Db).
            find (λ (f : File). str_eq f.id file_id && (f.is_anonymous && is_live f)) db.files))
          "File not found, not anonymous, or not ready"
    modify (
        add_share (
          new_share share_id token f.owner_user_id (some file_id) none file_share input now session
            label))
    pure (share_id, token)

  unfoldable pub create_anonymous_folder_share :
      String
      → String
      → String
      → ShareInput
      → ℕ
      → Option String
      → Option String
      → Action (String × String)
  create_anonymous_folder_share share_id token folder_id input now session label = do
    f ←
        or_raise
          (← gets (λ (db : Db).
            find (λ (f : Folder). str_eq f.id folder_id && f.is_anonymous) db.folders))
          "Folder not found or not anonymous"
    modify (
        add_share (
          new_share share_id token f.owner_user_id none (some folder_id) folder_share input now
            session label))
    pure (share_id, token)

abbrev pub revoke : ℕ → Share → Share
revoke now s = record s { status = revoked; revoked_at = some now }

unfoldable pub revoke_share : String → String → ℕ → Action Bool
revoke_share owner share_id now = do
  or_raise
      (← gets (λ (db : Db).
        find (λ (s : Share). str_eq s.share_id share_id && str_eq s.owner_user_id owner) db.shares))
      "Share not found"
  modify (update_share share_id (revoke now))
  pure true

unfoldable pub revoke_anonymous_share : String → String → ℕ → Action Bool
revoke_anonymous_share share_id session now = do
  or_raise
      (← gets (λ (db : Db).
        find (λ (s : Share). str_eq s.share_id share_id && opt_eq s.anon_session_id (some session))
          db.shares))
      "Share not found or not owned by this session"
  modify (update_share share_id (revoke now))
  pure true

-- The shares, each with its token, the newest first.
unfoldable pub list_anonymous_shares : String → Db → List (Share × Option String)
list_anonymous_shares session db =
    map (λ (s : Share). (s, s.anon_token))
      (reverse (
        sort_by (λ (s : Share). s.created_at)
          (filter (λ (s : Share). opt_eq s.anon_session_id (some session)) db.shares)))

unfoldable pub get_shares : String → String → Db → List Share
get_shares owner file_id db = reverse (
    sort_by (λ (s : Share). s.created_at)
      (filter (λ (s : Share). str_eq s.owner_user_id owner && opt_eq s.file_id (some file_id))
        db.shares))

unfoldable pub report_share :
    String → String → String → Option String → Option String → ℕ → Action Bool
report_share report_id share_id reason note reporter_ip now = do
  or_raise (← gets (find_share share_id)) "Share not found"
  modify (λ (db : Db). record db {
    reports =
        db.reports
        ++ record {
          id = report_id;
          share_id = share_id;
          reason = reason;
          note = note;
          reporter_ip = reporter_ip;
          status = opened;
          created_at = now;
          resolved_at = none;
        }
          ∷ [];
  })
  pure true

abbrev is_opened : ReportStatus → Bool
is_opened opened = true
is_opened _ = false

-- The reports that wait, each with its share, the newest first.
unfoldable pub list_open_reports : Db → List (ShareReport × Option Share)
list_open_reports db =
    map (λ (r : ShareReport). (r, find_share r.share_id db))
      (reverse (
        sort_by (λ (r : ShareReport). r.created_at)
          (filter (λ (r : ShareReport). is_opened r.status) db.reports)))

-- Prisma's `update` throws for a row that is not there.
unfoldable pub resolve_report : String → ReportStatus → ℕ → Action Bool
resolve_report report_id status now = do
  or_raise (← gets (λ (db : Db). find (λ (r : ShareReport). str_eq r.id report_id) db.reports))
      "Record to update not found"
  modify (λ (db : Db). record db {
    reports =
        update_many (λ (r : ShareReport). str_eq r.id report_id)
          (λ (r : ShareReport). record r { status = status; resolved_at = some now }) db.reports;
  })
  pure true
