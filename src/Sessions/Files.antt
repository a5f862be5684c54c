-- ===== src/Sessions/Files.antt =====
-- UploadFile and DownloadFile of internal/session/session.go. The remote files are a map from paths
-- to bytes; what the SFTP server answers is in `Answers`. The base64 codec and `filepath.Dir` are
-- parameters.
mod Tests
use interactive_process_mcp.Prelude.{
  ℕ, ◌+◌, ◌*◌, ◌/◌, ◌≤◌, Text, bytes, ◌≡◌, refl, sym, ap, ◌∙◌, Bool, true, false, not, ◌&&◌, ◌||◌,
  Option, none, some, List, [], ◌∷◌, if◌then◌else◌, if_cases, Bool-cases, Option-cases, ◌⊎◌, inl,
  inr, text_eqb_iff, length, take, length-take, ltb, nat_eqb, ◌==◌, text_eq, arith, all,
}
use interactive_process_mcp.Prelude.Assoc.{Map, get, put, get-put, some_injective, equals_refl}
use interactive_process_mcp.Buffer.Queue.{Ring}
use interactive_process_mcp.Sessions.{Session}

-- encoding/base64, with its documented laws.
pub record Codec : Type 0 where
  pub encode : Text → Text
  pub decode : Text → Option Text
  pub encoded_len : ℕ → ℕ
  pub decode-encode : (p : Text) → decode (encode p) ≡ some p
  pub length-encode : (p : Text) → length (encode p) ≡ encoded_len (length p)
  pub encoded_len_mono : (m n : ℕ) → m ≤ n → encoded_len m ≤ encoded_len n

pub data Error : Type 0 where
  unavailable content_too_large bad_base64 mkdir_failed create_failed : Error
  write_failed stat_failed open_failed read_failed : Error
  too_large : ℕ → Error

pub data Result {ℓ} (A : Type ℓ) : Type ℓ where
  ok : A → Result A
  err : Error → Result A

pub data Encoding : Type 0 where
  as_text as_base64 : Encoding

pub record DownloadResult : Type 0 where
  pub content : Text
  pub encoding : Encoding
  pub size : ℕ

-- `cut` is how many bytes arrived if the write failed.
pub record Answers : Type 0 where
  pub mkdir_ok : Bool
  pub create_ok : Bool
  pub cut : Option ℕ
  pub stat_ok : Bool
  pub open_ok : Bool
  pub read_ok : Bool

abbrev pub Remote : Type 0
Remote = Map Text Text

abbrev pub max_file_size : ℕ
max_file_size = 1048576

unfoldable pub has_zero : Text → Bool
has_zero [] = false
has_zero (c ∷ p) = nat_eqb c 0 || has_zero p

module _ (codec : Codec) (dir : Text → Text) (ring : Ring) where
  -- The write itself, the file created.
  unfoldable pub put_file : Option ℕ → Text → Text → Remote → Result ℕ × Remote
  put_file none path p remote = (ok (length p), put path p remote)
  put_file (some n) path p remote = (err write_failed, put path (take n p) remote)

  abbrev needs_dir : Text → Bool
  needs_dir path = not (dir path == bytes ".") && not (dir path == bytes "/")

  -- UploadFile behind the decoding.
  unfoldable pub upload_decoded : Answers → Text → Option Text → Remote → Result ℕ × Remote
  upload_decoded answers path none remote = (err bad_base64, remote)
  upload_decoded answers path (some p) remote =
      if ltb max_file_size (length p)
      then (err (too_large (length p)), remote)
      else if needs_dir path && not answers.mkdir_ok
      then (err mkdir_failed, remote)
      else if not answers.create_ok
      then (err create_failed, remote)
      else put_file answers.cut path p remote

  unfoldable pub upload_file : Answers → Text → Text → Session ring → Remote → Result ℕ × Remote
  upload_file answers content_base64 path s remote =
      if not s.sftp_conn
      then (err unavailable, remote)
      else if ltb (codec.encoded_len max_file_size) (length content_base64)
      then (err content_too_large, remote)
      else upload_decoded answers path (codec.decode content_base64) remote

  -- A file without a zero byte goes out as it is, another in base64.
  unfoldable pub as_result : Text → DownloadResult
  as_result p =
      if has_zero p
      then record { content = codec.encode p; encoding = as_base64; size = length p }
      else record { content = p; encoding = as_text; size = length p }

  unfoldable pub download_found : Answers → Text → Result DownloadResult
  download_found answers p =
      if not answers.stat_ok
      then err stat_failed
      else if ltb max_file_size (length p)
      then err (too_large (length p))
      else if not answers.open_ok
      then err open_failed
      else if not answers.read_ok
      then err read_failed
      else ok (as_result p)

  unfoldable pub download_file : Answers → Text → Session ring → Remote → Result DownloadResult
  download_file answers path s remote =
      if not s.sftp_conn
      then err unavailable
      else elim (get path remote) [ none ↦ err stat_failed | some p ↦ download_found answers p ]

  -- What the client has of a download.
  abbrev pub decoded : DownloadResult → Option Text
  decoded r = elim r.encoding [ as_text ↦ some r.content | as_base64 ↦ codec.decode r.content ]

  abbrev pub Carries : Text → Result DownloadResult → Type 0
  Carries p (ok r) = (decoded r ≡ some p) × (r.size ≡ length p)
  Carries p (err e) = ⊥

  as_result-Carries : (p : Text) → Carries p (ok (as_result p))
  unfolding as_result
  as_result-Carries p =
      if_cases (λ (r : DownloadResult). Carries p (ok r)) (has_zero p)
        (λ _. (codec.decode-encode p, refl)) (λ _. (refl, refl))

  pub record AllOk (answers : Answers) : Type 0 where
    pub mkdir_is : answers.mkdir_ok ≡ true
    pub create_is : answers.create_ok ≡ true
    pub cut_is : answers.cut ≡ none
    pub stat_is : answers.stat_ok ≡ true
    pub open_is : answers.open_ok ≡ true
    pub read_is : answers.read_ok ≡ true

  and-false : (b : Bool) → (b && false) ≡ false
  and-false true = refl
  and-false false = refl

  module _ (answers : Answers) (path p : Text) (small : length p ≤ max_file_size) where
    fits : ltb max_file_size (length p) ≡ false
    fits = ground arith

    upload_all :
        (s : Session ring) (remote : Remote)
        → AllOk answers
        → s.sftp_conn ≡ true
        → upload_file answers (codec.encode p) path s remote ≡ (ok (length p), put path p remote)
    unfolding upload_file upload_decoded put_file
    upload_all s remote h conn =
        let short : ltb (codec.encoded_len max_file_size) (length (codec.encode p)) ≡ false =
          rw (codec.length-encode p)
            (ground (arith, codec.encoded_len_mono (length p) max_file_size small)) in
        rw (conn, short, codec.decode-encode p, fits, h.mkdir_is, and-false, h.create_is, h.cut_is)
          refl

    download_all :
        (s : Session ring) (remote : Remote)
        → AllOk answers
        → s.sftp_conn ≡ true
        → get path remote ≡ some p
        → download_file answers path s remote ≡ ok (as_result p)
    unfolding download_file download_found
    download_all s remote h conn there =
        rw (conn, there, download_file) (rw (h.stat_is, fits, h.open_is, h.read_is) refl)

  -- Bytes that are uploaded, in base64, are downloaded again, as text or in base64 as their zero bytes
  -- ask for, up to 1 MB, while the connection is there and SFTP answers without error.
  pub download-upload :
      (answers : Answers) (path p : Text) (s : Session ring) (remote : Remote)
      → AllOk answers
      → s.sftp_conn ≡ true
      → length p ≤ max_file_size
      → ((upload_file answers (codec.encode p) path s remote).0 ≡ ok (length p))
        × Carries p
            (download_file answers path s (upload_file answers (codec.encode p) path s remote).1)
  download-upload answers path p s remote h conn small =
      let there : get path (put path p remote) ≡ some p =
        get-put path path p remote ∙ rw (equals_refl path) refl in
      rw (upload_all answers path p small s remote h conn) (
        refl,
        rw (download_all answers path p small s (put path p remote) h conn there)
            (as_result-Carries p),
      )

  -- What is stored under a path afterwards was there before, or is under the path of the upload and small.
  abbrev pub IsBounded : Text → Remote → Result ℕ × Remote → Type 0
  IsBounded path before r =
      (j p : Text)
      → get j r.1 ≡ some p
      → (get j before ≡ some p) ⊎ ((j ≡ path) × (length p ≤ max_file_size))

  put-IsBounded :
      (path p : Text) (remote : Remote) (r : Result ℕ)
      → length p ≤ max_file_size
      → IsBounded path remote (r, put path p remote)
  put-IsBounded path p remote r small j q found = elim (Bool-cases (path == j)) [
    | inl same ↦
        let is : p ≡ q = some_injective (rw (get-put, same) at found) in
        inr (sym ((text_eqb_iff path j).0 same), rw (sym is) small)
    | inr other ↦ inl (rw (get-put, other) at found)
  ]

  put_file-IsBounded :
      (cut : Option ℕ) (path p : Text) (remote : Remote)
      → length p ≤ max_file_size
      → IsBounded path remote (put_file cut path p remote)
  unfolding put_file
  put_file-IsBounded none path p remote small = put-IsBounded path p remote (ok (length p)) small
  put_file-IsBounded (some n) path p remote small =
      put-IsBounded path (take n p) remote (err write_failed) (omega (arith, length-take n p))

  upload_decoded-IsBounded :
      (answers : Answers) (path : Text) (content : Option Text) (remote : Remote)
      → IsBounded path remote (upload_decoded answers path content remote)
  unfolding upload_decoded
  upload_decoded-IsBounded answers path none remote = λ j p h. inl h
  upload_decoded-IsBounded answers path (some p) remote =
      if_cases (IsBounded path remote) (ltb max_file_size (length p)) (λ _ j q h. inl h)
        λ small.
          if_cases (IsBounded path remote) (needs_dir path && not answers.mkdir_ok)
            (λ _ j q h. inl h)
            λ _.
              if_cases (IsBounded path remote) (not answers.create_ok) (λ _ j q h. inl h)
                λ _. put_file-IsBounded answers.cut path p remote (ground arith)

  -- Whatever its content, the answers and the files that are there: every file behind an upload was there
  -- before with the same bytes, or stands under the path of the upload and has at most 1 MB.
  pub upload_file-bounded :
      (answers : Answers) (content path : Text) (s : Session ring) (remote : Remote) (j p : Text)
      → get j (upload_file answers content path s remote).1 ≡ some p
      → (get j remote ≡ some p) ⊎ ((j ≡ path) × (length p ≤ max_file_size))
  unfolding upload_file
  upload_file-bounded answers content path s remote =
      if_cases (IsBounded path remote) (not s.sftp_conn) (λ _ j q h. inl h)
        λ _.
          if_cases (IsBounded path remote) (ltb (codec.encoded_len max_file_size) (length content))
            (λ _ j q h. inl h)
            λ _. upload_decoded-IsBounded answers path (codec.decode content) remote
