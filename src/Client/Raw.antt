-- ===== src/Client/Raw.antt =====
-- `read_raw` of src/client.rs: the client without framing. What the reads of the connection return is a
-- list of chunks, and how the stream ends behind them. A flush behind the last write that fails changes
-- nothing.
use replstoke.Common.{
  ◌≡◌, ◌∙◌, refl, sym, ap, false, List, [], ◌∷◌, ◌++◌, Option, none, some, Bytes, codes, ok, err,
  arith, concat, Option-cases, inl, inr, append_assoc, append-nil,
}
use replstoke.Error.{AppError, AppResult, failure}
use replstoke.Protocol.Types.{IoError}
use replstoke.Marker.Set.{Markers, Match, end, error, is_empty, find_first, new as new_markers}
use replstoke.Marker.Bounds.{NonEmpty, new-NonEmpty, find_first_fits}
use replstoke.Marker.Scanner
use replstoke.Marker.Scanner.{MarkerScanner, Feed, more, done, cut_at}
use replstoke.Marker.Stream.{Scanned, feed_FeedsAs, new-Scanned}
use replstoke.Client.{OwnStreams, Settings, finish, write_to, write_failure}
use replstoke.Client.Response.{Works}
use replstoke.Marker.Bounds.{found_active}

-- The markers of both streams: raw mode has only one.
unfoldable pub raw_markers : Settings → Markers
unfolding new_markers
raw_markers cfg = new_markers (
    (cfg.end_marker_stdout, end)
    ∷ (cfg.end_marker_stderr, end)
    ∷ (cfg.error_marker_stdout, error)
    ∷ (cfg.error_marker_stderr, error)
    ∷ [])

unfoldable pub read_failure : IoError → AppError
unfolding failure
read_failure e = failure (codes "error reading from server: " ++ e)

unfoldable pub closed_early : AppError
unfolding failure
closed_early = failure (codes "connection closed by server before end-of-response marker")

-- What the client has written, and its result.
abbrev pub Finished : Type 0
Finished = Bytes × AppResult (Unit {0})

-- A write of the loop, and what follows if it succeeds.
unfoldable pub wrote : (IoError → AppError) → Bytes × Option IoError → (Bytes → Finished) → Finished
wrote fails (out, none) go_on = go_on out
wrote fails (out, some e) go_on = (out, err (fails e))

-- Without a marker: `copy`, whose error may be that of a write as well.
unfoldable pub copy_all : OwnStreams → List Bytes → Option IoError → Bytes → Finished
unfolding read_failure wrote write_to
copy_all own [] none out = (out, ok tt)
copy_all own [] (some e) out = (out, err (read_failure e))
copy_all own (c ∷ cs) fault out =
    wrote read_failure (write_to own.out_fails out c) (copy_all own cs fault)

-- A scanner that is done is never fed again, as the client returns then; `none` does not occur.
unfoldable pub raw_fed :
    OwnStreams
    → Bytes
    → Option (MarkerScanner × Feed)
    → (MarkerScanner → Bytes → Finished)
    → Finished
unfolding wrote write_failure finish
raw_fed own out none go_on = (out, err closed_early)
raw_fed own out (some (sc, more bytes)) go_on =
    wrote write_failure (write_to own.out_fails out bytes) (go_on sc)
raw_fed own out (some (sc, done outcome bytes)) go_on =
    wrote write_failure (write_to own.out_fails out bytes) (λ out'. (out', finish outcome))

-- The loop, with what was written so far.
unfoldable pub raw_loop :
    OwnStreams → List Bytes → Option IoError → MarkerScanner → Bytes → Finished
unfolding raw_fed read_failure closed_early Scanner.flush
raw_loop own [] none sc out =
    wrote write_failure (write_to own.out_fails out (Scanner.flush sc))
      (λ out'. (out', err closed_early))
raw_loop own [] (some e) sc out = (out, err (read_failure e))
raw_loop own (c ∷ cs) fault sc out =
    raw_fed own out (Scanner.feed sc c) (λ sc' out'. raw_loop own cs fault sc' out')

unfoldable pub raw_with : OwnStreams → Option MarkerScanner → List Bytes → Option IoError → Finished
unfolding raw_loop copy_all
raw_with own none chunks fault = copy_all own chunks fault []
raw_with own (some sc) chunks fault = raw_loop own chunks fault sc []

-- `MarkerScanner::new` is called only for a set with markers, and is `none` for no other.
unfoldable pub read_raw : OwnStreams → Settings → List Bytes → Option IoError → Finished
unfolding raw_with raw_markers Scanner.new
read_raw own cfg chunks fault =
    raw_with own (Scanner.new (raw_markers cfg) cfg.strip_marker_stdout) chunks fault

write_to_lem :
    (own : OwnStreams) (out b : Bytes) → Works own → write_to own.out_fails out b ≡ (out ++ b, none)
unfolding write_to
write_to_lem own out [] works = rw append-nil refl
write_to_lem own out (x ∷ b) works = rw (works out) refl

-- The scanner's stream `text` holds no marker yet, and `out` of it is written.
raw_answered :
    (own : OwnStreams) (works : Works own) (cs : List Bytes) (fault : Option IoError)
    (sc : MarkerScanner) (out text : Bytes) (m : Match)
    → Scanned sc out text
    → find_first sc.markers text ≡ none
    → find_first sc.markers (text ++ concat cs) ≡ some m
    → (seen : Bytes) × (unseen : Bytes) × (n : Match) × (seen ++ unseen ≡ text ++ concat cs)
      × (find_first sc.markers seen ≡ some n)
      × (raw_loop own cs fault sc out ≡ (cut_at sc.strip seen n.0 n.1, finish n.2))
unfolding raw_loop
raw_answered own works [] fault sc out text m w clear found =
    let here : find_first sc.markers text ≡ some m = rw append-nil at found in absurd (ground arith)
raw_answered own works (c ∷ cs) fault sc out text m w clear found =
    let whole = append_assoc text c (concat cs) in
    let fed = feed_FeedsAs sc out text c w in
    elim (Option-cases (find_first sc.markers (text ++ c))) [
      | inl e ↦
          let (sc', b, feeds, same, strips, seen) = rw e at fed in
          let rest =
            raw_answered own works cs fault sc' (out ++ b) (text ++ c) m seen (rw (same, e))
              (rw (same, whole) found) in
          let (part, unseen, n, parts, first, ran) = rest in
          (
            part,
            unseen,
            n,
            parts ∙ whole,
            ap (λ k. find_first k part) (sym same) ∙ first,
            ap (λ z. raw_fed own out z (λ k out'. raw_loop own cs fault k out')) feeds
                ∙ ap (λ x. wrote write_failure x (raw_loop own cs fault sc'))
                    (write_to_lem own out b works)
                ∙ ran
                ∙ ap (λ b. (cut_at b part n.0 n.1, finish n.2)) strips,
          )
      | inr ((p, n, o), e) ↦
          let (sc', b, feeds, cut) = rw e at fed in
          (text ++ c, concat cs, (p, n, o), whole, e, rw (feeds, write_to_lem own out b works, cut))
    ]

raw_markers-NonEmpty : (cfg : Settings) → NonEmpty (raw_markers cfg).list
unfolding raw_markers
raw_markers-NonEmpty cfg = new-NonEmpty (
    (cfg.end_marker_stdout, end)
    ∷ (cfg.end_marker_stderr, end)
    ∷ (cfg.error_marker_stdout, error)
    ∷ (cfg.error_marker_stderr, error)
    ∷ [])

nothing_found : (cfg : Settings) → find_first (raw_markers cfg) [] ≡ none
nothing_found cfg = elim (Option-cases (find_first (raw_markers cfg) [])) [
  | inl e ↦ e
  | inr ((p, n, o), e) ↦
      let fits = find_first_fits (raw_markers cfg) [] p n o (raw_markers-NonEmpty cfg) e in
      absurd (omega arith)
]

abbrev fresh_scanner : Settings → MarkerScanner
fresh_scanner cfg = record {
  markers = raw_markers cfg;
  strip = cfg.strip_marker_stdout;
  hold = [];
  finished = false;
}

new-fresh_scanner :
    (cfg : Settings)
    → is_empty (raw_markers cfg) ≡ false
    → Scanner.new (raw_markers cfg) cfg.strip_marker_stdout ≡ some (fresh_scanner cfg)
unfolding Scanner.new
new-fresh_scanner cfg e = rw e

-- Without framing and with an own stdout that takes every write: if what the server sends holds one of
-- the client's markers, then, however the reads cut it into chunks and however it ends, some part of
-- it, from its start, holds a marker, and the client writes exactly that part up to its first match,
-- with the marker unless stripped, and returns with that marker's outcome.
pub read_raw_lem :
    (own : OwnStreams) (cfg : Settings) (cs : List Bytes) (fault : Option IoError) (m : Match)
    → Works own
    → find_first (raw_markers cfg) (concat cs) ≡ some m
    → (seen : Bytes) × (unseen : Bytes) × (n : Match) × (seen ++ unseen ≡ concat cs)
      × (find_first (raw_markers cfg) seen ≡ some n)
      × (read_raw own cfg cs fault ≡ (cut_at cfg.strip_marker_stdout seen n.0 n.1, finish n.2))
unfolding raw_with
read_raw_lem own cfg cs fault m works found =
    let made = new-fresh_scanner cfg (found_active (raw_markers cfg) (concat cs) m found) in
    let begun = new-Scanned (raw_markers cfg) cfg.strip_marker_stdout made in
    let (seen, unseen, n, parts, first, ran) =
      raw_answered own works cs fault (fresh_scanner cfg) [] [] m begun (nothing_found cfg) found in
    (seen, unseen, n, parts, first, unfold read_raw in ap (λ z. raw_with own z cs fault) made ∙ ran)
