-- ===== src/Tests/Responses.antt =====
-- A response read by the client at concrete inputs: src/client.rs.
use replstoke.Common.{
  ◌≡◌, refl, false, true, Bytes, [], ◌∷◌, ◌++◌, some, none, codes, ok, err, is_nil, if◌then◌else◌,
}
use replstoke.Protocol.Types.{stream_out}
use replstoke.Protocol.Encode.{encode}
use replstoke.Protocol.Framing.{source}
use replstoke.Strings.Decimal.{format_uint, format_padded, parse_uint}
use replstoke.Strings.Split.{split_once, position}
use replstoke.Strings.Utf8.{from_utf8_lossy}
use replstoke.Protocol.Read.{aborted, read_packet}
use replstoke.Marker.Scanner
use replstoke.Marker.Search.{find}
use replstoke.Marker.Set.{Match, end, find_first}
use replstoke.Marker.Scanner.{cut_at}
use replstoke.Client.{
  Settings, OwnStreams, ignore, finish, out_markers, on_out, write_out, read_protocol,
}
use replstoke.Client.Reading.{Ends, read_protocol_returns}
use replstoke.Client.Response.{read_protocol-encode}
use replstoke.Client.Lossless.{sure, success_lossless}
use replstoke.Client.Raw.{raw_markers, read_raw, read_raw_lem}

abbrev pub settings : Settings
settings = record {
  end_marker_stdout = codes "END";
  end_marker_stderr = [];
  error_marker_stdout = [];
  error_marker_stderr = [];
  strip_marker_stdout = true;
  strip_marker_stderr = false;
  ctl = ignore;
}

abbrev pub own : OwnStreams
own = record { out_fails = λ b. none; err_fails = λ b. none; flush_fails = λ b. none }

shows_end : find_first (out_markers settings) (codes "hi END") ≡ some (3, 3, end)
unfolding find_first out_markers find
shows_end = refl

read_protocol-encode_example :
    (seen : Bytes) × (unseen : Bytes) × (n : Match) × (seen ++ unseen ≡ codes "hi END")
    × (find_first (out_markers settings) seen ≡ some n)
    × (read_protocol own settings (source none (encode [] stream_out (codes "hi END") ++ codes "#"))
        ≡ (record { out = cut_at true seen n.0 n.1; err_out = [] }, some (finish n.2)))
read_protocol-encode_example =
    read_protocol-encode own settings none (codes "hi END") (codes "#") (3, 3, end) (λ b. refl)
      shows_end

read_protocol_returns_example :
    Ends
      (read_protocol own settings (source none (codes "# REPL"))).1
      (source none (codes "# REPL"))
read_protocol_returns_example = read_protocol_returns own settings (source none (codes "# REPL"))

-- A packet whose only line feed is its last byte.
headless_panics : read_packet (source none (codes "# RePLstOKE/1.0 00024 x\n")) ≡ err aborted
unfolding read_packet split_once parse_uint position from_utf8_lossy
headless_panics = refl

headless_aborts :
    (read_protocol own settings (source none (codes "# RePLstOKE/1.0 00024 x\n"))).1 ≡ none
unfolding read_protocol read_packet split_once parse_uint position from_utf8_lossy
headless_aborts = refl

shows_end_raw : find_first (raw_markers settings) (codes "hi END") ≡ some (3, 3, end)
unfolding find_first raw_markers find
shows_end_raw = refl

read_raw_lem_example :
    (seen : Bytes) × (unseen : Bytes) × (n : Match) × (seen ++ unseen ≡ codes "hi END")
    × (find_first (raw_markers settings) seen ≡ some n)
    × (read_raw own settings (codes "hi E" ∷ codes "ND" ∷ []) none
        ≡ (cut_at true seen n.0 n.1, finish n.2))
read_raw_lem_example =
    read_raw_lem own settings (codes "hi E" ∷ codes "ND" ∷ []) none (3, 3, end) (λ b. refl)
      shows_end_raw

-- A stdout that takes one write, and a flush of which fails.
abbrev tight : OwnStreams
tight = record {
  out_fails = λ b. if is_nil b then none else some (codes "full");
  err_fails = λ b. none;
  flush_fails = λ b. some (codes "full");
}

tight_success :
    read_protocol tight settings (source none (encode [] stream_out (codes "hi END")))
    ≡ (record { out = codes "hi "; err_out = [] }, some (ok tt))
unfolding read_protocol on_out write_out encode format_uint format_padded read_packet split_once
    parse_uint position from_utf8_lossy Scanner.feed find_first find finish
tight_success = refl

success_lossless_example :
    read_protocol sure settings (source none (encode [] stream_out (codes "hi END")))
    ≡ (record { out = codes "hi "; err_out = [] }, some (ok tt))
success_lossless_example =
    success_lossless tight settings (source none (encode [] stream_out (codes "hi END")))
      (record { out = codes "hi "; err_out = [] }) refl tight_success
