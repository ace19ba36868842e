-- ===== src/Auction/Tests.antt =====
-- Uses of the theorems on rzauctionmonitor/lib.
use rzu.Prelude.{
  ℕ, ◌+◌, ◌<◌, ◌≡◌, refl, Bool, true, false, Option, none, some, List, [], ◌∷◌, ◌++◌, Bytes, arith,
  ltb, ◌==◌, if◌then◌else◌, ap,
}
mod Container
use rzu.Auction.Tests.Container.{sorted}
use rzu.Auction.Categories.{CategoryTime, reset_category_time}
use rzu.Auction.Writer.{FlatMap, Writer, find, AllBelow}
use rzu.Auction.Simple.Data.{SimpleData, ps_added}
use rzu.Auction.Simple.Writer as SimpleWriter
use rzu.Auction.Simple.Rounds.{Result, round, view}
use rzu.Auction.Simple.Rounds.Verdict.{verdict, live, contents, status_of, status_of-round}
use rzu.Auction.Complex.Data.{ComplexData, no_dynamic, ps_unmodified}
use rzu.Auction.Complex.Writer as ComplexWriter
use rzu.Auction.Complex.Writer.{DiffWriter}
use rzu.Auction.Simple.Data.{SimpleInfo, d_added, d_deleted}
use rzu.Auction.Complex.InRange.{
  IsInRange, Call, begin_call, end_call, mode_call, info_call, run_calls, run_calls-IsInRange,
}
use rzu.Prelude.{Returns}
use rzu.Auction.Complex.Lifecycle.{life}
use rzu.Auction.Complex.Lifecycle.Rounds.{Lives}
use rzu.Auction.Complex.Lifecycle.{next_life}
use rzu.Auction.Complex.Following.{add_infos, any_finds, any_tells}
use rzu.Auction.Complex.Following.Rounds.{round-Follows}
use rzu.Auction.RoundTrip.Simple.{import_dump-export_dump}
use rzu.Auction.RoundTrip.Complex.{begin_process-import_dump-export_dump}

abbrev simple : ℕ → Bytes → SimpleData
simple uid content = record {
  uid = uid;
  category = 1;
  time_min = 100;
  time_max = 160;
  process_status = ps_added;
  raw_data_epic = 591368;
  raw_data = content;
}

abbrev times : List CategoryTime
times =
    record { previous_begin = 0; previous_end = 0; begin = 90; end = 120 }
    ∷ record { previous_begin = 0; previous_end = 0; begin = 120; end = 180 }
    ∷ []

abbrev writer : Writer SimpleData
writer = record {
  category_time_manager = times;
  auctions = simple 4 (7 ∷ []) ∷ simple 9 (8 ∷ 1 ∷ []) ∷ simple 12 (3 ∷ []) ∷ [];
}

import_dump-export_dump_example :
    SimpleWriter.import_dump
      (sorted SimpleWriter.key)
      (SimpleWriter.export_dump true (SimpleWriter.end_process writer))
    ≡ SimpleWriter.end_process writer
import_dump-export_dump_example =
    import_dump-export_dump (sorted SimpleWriter.key) writer
      ((omega arith, (omega arith, tt)), ((omega arith, tt), (tt, tt))) (refl, (refl, (refl, tt)))

abbrev results : List Result
results =
    record { uid = 9; time = 200; category = 1; epic = 591368; content = 8 ∷ 2 ∷ [] }
    ∷ record { uid = 5; time = 201; category = 1; epic = 591368; content = 6 ∷ [] }
    ∷ record { uid = 12; time = 202; category = 1; epic = 591368; content = 3 ∷ [] }
    ∷ []

status_of-round_example :
    status_of (view 9 (round (sorted SimpleWriter.key) results writer))
    ≡ verdict (live (view 9 writer)) (contents 9 results)
status_of-round_example =
    status_of-round (sorted SimpleWriter.key) 9 results writer
      ((omega arith, (omega arith, tt)), ((omega arith, tt), (tt, tt)))

abbrev complex : ℕ → ComplexData
complex uid = record {
  uid = uid;
  category = 1;
  time_min = 100;
  time_max = 160;
  process_status = ps_unmodified;
  deleted = false;
  deleted_count = 0;
  seller = b'A' ∷ [];
  price = 1000;
  raw_data_epic = 591368;
  raw_data = 1 ∷ [];
  dynamic_data = record { duration_type = 3; bid_price = 900; bid_flag = 2 };
  old_dynamic_data = no_dynamic;
  estimated_end_time_from_added = true;
  estimated_end_time_min = 604900;
  estimated_end_time_max = 604960;
}

abbrev diff_writer : DiffWriter
diff_writer = record {
  category_time_manager = reset_category_time times;
  auctions = complex 4 ∷ complex 9 ∷ [];
  diff_mode = false;
}

begin_process-import_dump-export_dump_example :
    ComplexWriter.begin_process (
      ComplexWriter.import_dump
        (sorted ComplexWriter.key)
        (ComplexWriter.export_dump true true diff_writer)
        diff_writer)
    ≡ record (ComplexWriter.begin_process diff_writer) { diff_mode = false }
begin_process-import_dump-export_dump_example =
    begin_process-import_dump-export_dump (sorted ComplexWriter.key) diff_writer diff_writer times
      refl ((omega arith, tt), (tt, tt)) (omega arith, (omega arith, tt))

abbrev info : ℕ → ℕ → SimpleInfo
info uid diff_type = record {
  uid = uid;
  time = 300;
  previous_time = 0;
  diff_type = diff_type;
  category = 1;
  epic = 591368;
  content = 1 ∷ [];
}

abbrev calls : List Call
calls =
    begin_call
    ∷ info_call (info 4 d_added)
    ∷ info_call (info 6 d_added)
    ∷ mode_call true
    ∷ info_call (info 9 d_deleted)
    ∷ end_call
    ∷ []

diff_writer-IsInRange : IsInRange diff_writer
unfolding reset_category_time
diff_writer-IsInRange = refl

run_calls-IsInRange_example :
    Returns IsInRange (run_calls (sorted ComplexWriter.key) calls diff_writer)
run_calls-IsInRange_example =
    run_calls-IsInRange (sorted ComplexWriter.key) calls diff_writer diff_writer-IsInRange

abbrev infos : List SimpleInfo
infos = info 4 d_added ∷ info 6 d_added ∷ info 9 d_deleted ∷ []

round-Follows_example :
    Returns
      (λ ended.
        (b : ComplexData) × (find ComplexWriter.key 9 ended.auctions ≡ some b)
        × Lives
            (next_life diff_writer.diff_mode
              (any_finds 2 9 infos)
              (any_tells 2 9 infos)
              (life (complex 9)))
            b)
      (ComplexWriter.end_process
        (add_infos (sorted ComplexWriter.key) infos (ComplexWriter.begin_process diff_writer)))
unfolding find reset_category_time
round-Follows_example =
    round-Follows (sorted ComplexWriter.key) infos 9 (complex 9) diff_writer diff_writer-IsInRange
      refl refl refl
