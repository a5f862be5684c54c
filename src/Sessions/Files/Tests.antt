-- ===== src/Sessions/Files/Tests.antt =====
-- File transfers at concrete inputs, over a codec that leaves bytes as they are.
use interactive_process_mcp.Prelude.{
  ◌≡◌, ◌⊎◌, ◌≤◌, refl, pos, true, none, some, [], ◌∷◌, Text, bytes, length, text_eq, arith,
}
use interactive_process_mcp.Prelude.Assoc.{get, put}
use interactive_process_mcp.Api.{mode_pty}
use interactive_process_mcp.Storage.Samples.{good}
use interactive_process_mcp.Buffer.Sample.{sample_ring}
use interactive_process_mcp.Sessions.{Session, fresh}
use interactive_process_mcp.Sessions.Files.{
  Codec, Answers, max_file_size, ok, as_base64, has_zero, upload_file, upload_decoded, put_file,
  download_file, Carries, download-upload, upload_file-bounded, as_result, download_found,
}

abbrev plain : Codec
plain = record {
  encode = λ p. p;
  decode = λ p. some p;
  encoded_len = λ n. n;
  decode-encode = λ p. refl;
  length-encode = λ p. refl;
  encoded_len_mono = λ m n h. h;
}

abbrev root_dir : Text → Text
root_dir path = bytes "/"

abbrev all_good : Answers
all_good = record {
  mkdir_ok = true;
  create_ok = true;
  cut = none;
  stat_ok = true;
  open_ok = true;
  read_ok = true;
}

abbrev shell : Session sample_ring
shell =
    fresh sample_ring
      (record {
        command = bytes "sh";
        args = [];
        mode = mode_pty;
        name = [];
        rows = pos 24;
        cols = pos 80;
      })
      none
      (record {
        id = bytes "s1";
        created = 1;
        updated = 2;
        exec_ok = true;
        sftp_ok = true;
        early = [];
        call = record { id = []; now = 0; readable = true; message_env = good; index_env = good };
      })

-- Two bytes, one of them zero.
abbrev binary : Text
binary = 7 ∷ 0 ∷ []

download_test :
    download_file plain root_dir sample_ring all_good (bytes "/f") shell ((bytes "/f", binary) ∷ [])
    ≡ ok (record { content = binary; encoding = as_base64; size = 2 })
unfolding download_file download_found as_result has_zero get fresh
download_test = refl

download-upload_example :
    ((upload_file plain root_dir sample_ring all_good binary (bytes "/f") shell []).0 ≡ ok 2)
    × Carries plain root_dir sample_ring binary (
        download_file plain root_dir sample_ring all_good
          (bytes "/f")
          shell
          (upload_file plain root_dir sample_ring all_good binary (bytes "/f") shell []).1)
unfolding fresh
download-upload_example =
    download-upload plain root_dir sample_ring all_good (bytes "/f") binary shell []
      (record {
        mkdir_is = refl;
        create_is = refl;
        cut_is = refl;
        stat_is = refl;
        open_is = refl;
        read_is = refl;
      })
      refl (omega arith)

upload_file-bounded_example :
    (get (bytes "/f") ((bytes "/g", (bytes "old")) ∷ []) ≡ some binary)
    ⊎ ((bytes "/f" ≡ bytes "/f") × (length binary ≤ max_file_size))
unfolding upload_file upload_decoded put_file fresh get put
upload_file-bounded_example =
    upload_file-bounded plain root_dir sample_ring all_good binary (bytes "/f") shell
      ((bytes "/g", (bytes "old")) ∷ []) (bytes "/f") binary refl
