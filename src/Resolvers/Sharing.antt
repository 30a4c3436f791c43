-- ===== src/Resolvers/Sharing.antt =====
-- apps/api/src/resolvers/sharing.ts. SHA-256 and the decoding of hexadecimal text are the platform's
-- and parameters; the random token, the identifier that the database makes up and `new Date()` are
-- arguments. A size, which the source prints, stays a number.
pub mod Managing
pub mod Opening
pub mod Views
pub mod Access
use ddrive.Prelude.{
  ℕ, ◌+◌, Bool, true, false, not, ◌&&◌, ◌||◌, List, [], ◌∷◌, ◌++◌, Option, none, some, String, map,
  ltb, leb, ◌==◌, str_eq, if◌then◌else◌, filter, find, length,
}
use mathlib.Core.List.{reverse}
use ddrive.Prelude.Sort.{sort_by}
use ddrive.Prelude.Tables.{update_many}
use ddrive.Processing.Chunker.{Bytes}
use ddrive.Storage.Rows.{Result, ok, err, truthy}
use ddrive.Resolvers.Folders.{Folder, opt_eq}
use ddrive.Database.Rows.{
  File, is_ready, ShareType, file_share, folder_share, ShareStatus, active, revoked, expired, Share,
  ReportStatus, opened, resolved, dismissed, ShareReport, Db,
}
use ddrive.Database.Actions.{
  Action, Done, pure, raise, gets, or_raise, ◌>>=◌, ◌>>◌, raise_if, modify,
}
use ddrive.Database.Cascades.{update_file, update_share}

-- `createHash("sha256").update(token).digest("hex")` and `Buffer.from(text, "hex")`.
pub record Hashing : Type 0 where
  pub sha256_hex : String → String
  pub from_hex : String → Bytes

-- `presented.length !== stored.length || !timingSafeEqual(presented, stored)`, negated.
abbrev pub same_bytes : Bytes → Bytes → Bool
same_bytes [] [] = true
same_bytes (x ∷ xs) (y ∷ ys) = x == y && same_bytes xs ys
same_bytes _ _ = false

abbrev pub is_active_share : ShareStatus → Bool
is_active_share active = true
is_active_share _ = false

-- `share.expiresAt && share.expiresAt < new Date()`.
abbrev pub has_expired : ℕ → Option ℕ → Bool
has_expired now none = false
has_expired now (some t) = ltb t now

-- `share.maxViews !== null && share.viewCount >= share.maxViews`.
abbrev pub is_used_up : Share → Bool
is_used_up s = elim s.max_views [ none ↦ false | some m ↦ leb m s.view_count ]

abbrev pub find_share : String → Db → Option Share
find_share share_id db = find (λ (s : Share). str_eq s.share_id share_id) db.shares

-- The file of the relation.
abbrev pub file_of_share : Share → Db → Option File
file_of_share s db = elim s.file_id [
  | none ↦ none
  | some id ↦ find (λ (f : File). str_eq f.id id) db.files
]

abbrev pub is_live : File → Bool
is_live f = elim f.deleted_at [ none ↦ is_ready f.status | some t ↦ false ]

pub data Kind : Type 0 where
  file_kind folder_kind : Kind

pub record Item : Type 0 where
  pub id : String
  pub name : Option String
  pub mime_type : Option String
  pub size : ℕ
  pub thumbnail_blob_id : Option String
  pub chunk_count : ℕ
  pub kind : Kind

-- `ShareAccessResponse`.
pub record ShareAccess : Type 0 where
  pub share_id : String
  pub share_type : ShareType
  pub file_id : String
  pub folder_id : Option String
  pub name : String
  pub mime_type : Option String
  pub primary_manifest_blob_id : Option String
  pub preview_blob_id : Option String
  pub thumbnail_blob_id : Option String
  pub poster_blob_id : Option String
  pub chunk_count : ℕ
  pub allow_content : Bool
  pub allow_preview : Bool
  pub folder_contents : List Item

abbrev or_text : Option String → String → String
or_text none d = d
or_text (some s) d = s

folder_item : Folder → Item
folder_item f = record {
  id = f.id;
  name = some f.name;
  mime_type = none;
  size = 0;
  thumbnail_blob_id = none;
  chunk_count = 0;
  kind = folder_kind;
}

file_item : File → Item
file_item f = record {
  id = f.id;
  name = f.name;
  mime_type = f.mime_type;
  size = f.total_bytes;
  thumbnail_blob_id = f.thumbnail_blob_id;
  chunk_count = f.chunk_count;
  kind = file_kind;
}

-- What a share of a folder shows.
folder_access : Share → String → Db → ShareAccess
unfolding folder_item file_item
folder_access s folder_id db =
    let folder = find (λ (f : Folder). str_eq f.id folder_id) db.folders in
    let child_folders =
      sort_by (λ (f : Folder). f.created_at)
        (filter (λ (f : Folder). opt_eq f.parent_folder_id (some folder_id)) db.folders) in
    let child_files =
      sort_by (λ (f : File). f.created_at)
        (filter (λ (f : File). opt_eq f.parent_folder_id (some folder_id) && is_live f) db.files) in
    record {
      share_id = s.share_id;
      share_type = folder_share;
      file_id = "";
      folder_id = some folder_id;
      name = elim folder [ none ↦ "Shared folder" | some f ↦ f.name ];
      mime_type = none;
      primary_manifest_blob_id = none;
      preview_blob_id = none;
      thumbnail_blob_id = none;
      poster_blob_id = none;
      chunk_count = 0;
      allow_content = s.allow_content;
      allow_preview = s.allow_preview;
      folder_contents = map folder_item child_folders ++ map file_item child_files;
    }

abbrev column {ℓ} : {A : Type ℓ} → Option File → A → (File → A) → A
column none d g = d
column (some f) d g = g f

-- What a share of a file shows.
file_access : Share → Db → ShareAccess
file_access s db =
    let file = file_of_share s db in
    record {
      share_id = s.share_id;
      share_type = file_share;
      file_id = or_text s.file_id "";
      folder_id = none;
      name = or_text (column file none (λ (f : File). f.name)) "Shared file";
      mime_type = column file none (λ (f : File). f.mime_type);
      primary_manifest_blob_id = column file none (λ (f : File). f.primary_manifest_blob_id);
      preview_blob_id =
          column file none (λ (f : File). if s.allow_preview then f.preview_blob_id else none);
      thumbnail_blob_id =
          column file none (λ (f : File). if s.allow_preview then f.thumbnail_blob_id else none);
      poster_blob_id =
          column file none (λ (f : File). if s.allow_preview then f.poster_blob_id else none);
      chunk_count = column file 0 (λ (f : File). f.chunk_count);
      allow_content = s.allow_content;
      allow_preview = s.allow_preview;
      folder_contents = [];
    }

-- The last part of `accessShare`; a share of a folder without one is shown as one of a file.
access_of : Share → Db → ShareAccess
unfolding folder_access file_access
access_of s db = elim s.share_type [
  | file_share ↦ file_access s db
  | folder_share ↦ elim s.folder_id [
    | none ↦ file_access s db
    | some folder_id ↦ folder_access s folder_id db
  ]
]

module _ (h : Hashing) where
  abbrev pub token_matches : String → Share → Bool
  token_matches presented s =
      same_bytes (h.from_hex (h.sha256_hex presented)) (h.from_hex s.token_hash)

  -- The checks of `accessShare` and `resolveShareForPage`.
  abbrev pub opens : ℕ → String → Share → Bool
  opens now presented s =
      is_active_share s.status
      && (not (has_expired now s.expires_at) && (not (is_used_up s) && token_matches presented s))

  abbrev pub count_view : Share → Share
  count_view s = record s { view_count = s.view_count + 1 }

  -- The look-up of a share and its checks, before the view is counted.
  unfoldable pub check_access : String → String → ℕ → Db → Option Share
  check_access share_id presented now db = elim (find_share share_id db) [
    | none ↦ none
    | some s ↦ elim (opens now presented s) [ false ↦ none | true ↦ some s ]
  ]

  -- The second query counts the view, on the row as it then is. The view is counted before the answer is
  -- made up; the row that is shown was read before.
  unfoldable pub grant_access : String → Share → Action (Option ShareAccess)
  unfolding access_of
  grant_access share_id s db =
      let db' = update_share share_id count_view db in (ok (some (access_of s db')), db')

  -- An access during which nothing else is written; what others write between the two queries comes
  -- between `check_access` and `grant_access`.
  unfoldable pub access_share : String → String → ℕ → Action (Option ShareAccess)
  unfolding check_access grant_access
  access_share share_id presented now db = elim (check_access share_id presented now db) [
    | none ↦ (ok none, db)
    | some s ↦ grant_access share_id s db
  ]

  unfoldable pub resolve_share_for_page : String → String → ℕ → Db → Option Share
  resolve_share_for_page share_id presented now db = elim (find_share share_id db) [
    | none ↦ none
    | some s ↦ elim (opens now presented s) [ false ↦ none | true ↦ some s ]
  ]

  abbrev pub claim : String → File → File
  claim user_id f = record f {
    owner_user_id = user_id;
    is_anonymous = false;
    anon_session_id = none;
    expires_at = none;
  }

  unfoldable pub claim_share : String → String → String → ℕ → Action Bool
  unfolding resolve_share_for_page
  claim_share user_id share_id presented now = do
    s ←
        or_raise (← gets (resolve_share_for_page share_id presented now))
          "Share not found or expired"
    f ←
        or_raise (← gets (file_of_share s))
          "This share has no file (folder shares cannot be claimed)"
    modify (update_file (or_text s.file_id "") now (claim user_id))
    pure true
