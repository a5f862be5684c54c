-- ===== src/Sessions/Listing.antt =====
-- ListFiles of internal/session/session.go. What the SFTP server lists is given, and so is the text
-- that the time package writes for an instant.
use interactive_process_mcp.Prelude.{
  ℕ, ℤ, Text, Bool, not, Option, none, some, List, map, if◌then◌else◌,
}
use interactive_process_mcp.Buffer.Queue.{Ring}
use interactive_process_mcp.Sessions.{Session}

-- An `os.FileInfo` of the listing.
pub record FileInfo : Type 0 where
  pub name : Text
  pub size : ℤ
  pub is_dir : Bool
  pub mod_time : ℕ

pub record FileEntry : Type 0 where
  pub name : Text
  pub size : ℤ
  pub is_dir : Bool
  pub mod_time : Text

-- Without a connection, the error of `getSFTPClient`; with one, that of the SFTP server.
pub data Error : Type 0 where
  unavailable list_failed : Error

pub data Result {ℓ} (A : Type ℓ) : Type ℓ where
  ok : A → Result A
  err : Error → Result A

module _ (format : ℕ → Text) (ring : Ring) where
  abbrev pub entry_of : FileInfo → FileEntry
  entry_of i = record {
    name = i.name;
    size = i.size;
    is_dir = i.is_dir;
    mod_time = format i.mod_time;
  }

  unfoldable pub list_files : Option (List FileInfo) → Session ring → Result (List FileEntry)
  list_files listed s =
      if not s.sftp_conn
      then err unavailable
      else elim listed [ none ↦ err list_failed | some infos ↦ ok (map entry_of infos) ]
