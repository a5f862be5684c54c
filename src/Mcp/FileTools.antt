-- ===== src/Mcp/FileTools.antt =====
-- The file tools of internal/mcp/handlers.go, over the session manager and the remote files.
use interactive_process_mcp.Prelude.{ℕ, Text, bytes, none, some, List, [], if◌then◌else◌, text_eq}
use interactive_process_mcp.Prelude.Assoc.{get}
use interactive_process_mcp.Strings.{is_empty}
use interactive_process_mcp.Buffer.Queue.{Ring}
use interactive_process_mcp.Sessions.Files
use interactive_process_mcp.Sessions.Files.{
  Codec, Remote, DownloadResult, upload_file, download_file,
}
use interactive_process_mcp.Sessions.Listing
use interactive_process_mcp.Sessions.Listing.{FileEntry, list_files}
use interactive_process_mcp.Sessions.Manager.{Manager}
use interactive_process_mcp.Mcp.{Floats, Args, get_string}
use interactive_process_mcp.Mcp.Handlers.{
  Reply, no_content, no_path, no_session, file_error, uploaded, downloaded, listed, listing_error,
  World, session_id,
}

-- What the file tools rely on: the codec, `filepath.Dir`, and the text of an instant.
pub record Library : Type 0 where
  pub codec : Codec
  pub dir : Text → Text
  pub format : ℕ → Text

module _ (floats : Floats) (ring : Ring) (lib : Library) where
  abbrev pub remote_path : Args floats → Text
  remote_path args = get_string floats args (bytes "remote_path") []

  abbrev pub content_of : Args floats → Text
  content_of args = get_string floats args (bytes "content_base64") []

  abbrev pub upload_reply : Text → Files.Result ℕ → Reply
  upload_reply path (Files.ok n) = uploaded path n
  upload_reply path (Files.err e) = file_error e

  abbrev pub download_reply : Files.Result DownloadResult → Reply
  download_reply (Files.ok r) = downloaded r
  download_reply (Files.err e) = file_error e

  -- An error of the listing is an error result.
  abbrev pub list_reply : Text → Listing.Result (List FileEntry) → Reply
  list_reply path (Listing.ok files) = listed path files
  list_reply path (Listing.err e) = listing_error e

  unfoldable pub handle_upload_file : Args floats → World → Manager ring → Remote → Reply × Remote
  handle_upload_file args w m remote =
      if is_empty (content_of args)
      then (no_content, remote)
      else if is_empty (remote_path args)
      then (no_path, remote)
      else elim (get (session_id floats ring args) m.sessions) [
        | none ↦ (no_session (session_id floats ring args), remote)
        | some s ↦
            let r : Files.Result ℕ × Remote =
              upload_file lib.codec lib.dir ring w.answers (content_of args) (remote_path args) s
                remote in
            (upload_reply (remote_path args) r.0, r.1)
      ]

  unfoldable pub handle_download_file : Args floats → World → Manager ring → Remote → Reply
  handle_download_file args w m remote =
      if is_empty (remote_path args)
      then no_path
      else elim (get (session_id floats ring args) m.sessions) [
        | none ↦ no_session (session_id floats ring args)
        | some s ↦
            download_reply
              (download_file lib.codec lib.dir ring w.answers (remote_path args) s remote)
      ]

  unfoldable pub handle_list_files : Args floats → World → Manager ring → Reply
  handle_list_files args w m =
      if is_empty (remote_path args)
      then no_path
      else elim (get (session_id floats ring args) m.sessions) [
        | none ↦ no_session (session_id floats ring args)
        | some s ↦ list_reply (remote_path args) (list_files lib.format ring w.listing s)
      ]
