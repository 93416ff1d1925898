-- ===== src/Io/Tests.antt =====
-- Readers and writers at concrete scripts and buffers.
use monoio.Prelude.{ℕ, ◌<◌, ◌≡◌, ◌⊎◌, refl, true, some, List, [], ◌∷◌, ◌++◌, take, ok, arith}
use monoio.Io.{interrupted, other, success, failure}
use monoio.Io.Stream.{Answer}
use monoio.Io.Exact.{Exact, read_exact}
use monoio.Io.WriteAll.{write_all}
use monoio.Io.BufReader.{BufReader}
use monoio.Io.BufReader as Reader
use monoio.Io.BufReader.Filling as ReaderFilling
use monoio.Io.BufReader.Laws as ReaderLaws
use monoio.Io.BufWriter.{BufWriter}
use monoio.Io.BufWriter as Writer
use monoio.Io.BufWriter.Contents.{Flushed, Written}
use monoio.Io.BufWriter.Flush.{flush-Flushed, flush-again}
use monoio.Io.BufWriter.Write.{write-Written}
use monoio.Io.Bytes.{bytes_reader, bytes_spec, bytes_patience}
use monoio.Io.Prefixed.{PrefixedReadIo}
use monoio.Io.Prefixed as Prefixed
use monoio.Io.Prefixed.Laws as PrefixedLaws
use monoio.Io.Prefixed.Rewind.{rewind}
use monoio.Io.Copy.{copy}
use monoio.Io.Copy.Laws.{Copied, copy_lem}
use monoio.Io.Script.{
  at_most, broken, Scripted, reader, reader_spec, reader_patience, writer, writer_spec,
  writer_patience,
}

-- Gives one byte, is interrupted, then gives what is left of five bytes.
abbrev source : Scripted
source = record { script = at_most 0 ∷ broken interrupted ∷ []; bytes = 1 ∷ 2 ∷ 3 ∷ 4 ∷ 5 ∷ [] }

-- Takes two bytes, then fails once.
abbrev sink : Scripted
sink = record { script = at_most 2 ∷ broken (other 7) ∷ []; bytes = [] }

read_exact_run :
    read_exact reader 5 source 3
    ≡ some (ok (success (1 ∷ 2 ∷ 3 ∷ []), record { script = []; bytes = 4 ∷ 5 ∷ [] }))
unfolding read_exact
read_exact_run = refl

-- Two bytes of a buffer of four are still to be read.
abbrev buffered : BufReader Scripted
buffered = record { inner = source; buf = some (0 ∷ 6 ∷ 7 ∷ 0 ∷ []); pos = 1; cap = 3 }

read-Answer_buffered_example :
    Answer
      (ReaderFilling.Valid reader_spec)
      (ReaderFilling.rest reader_spec)
      (6 ∷ 7 ∷ 1 ∷ 2 ∷ 3 ∷ 4 ∷ 5 ∷ [])
      8
      (Reader.read reader true buffered 8)
read-Answer_buffered_example =
    ReaderLaws.read-Answer_buffered reader_spec true buffered 8
      ((omega arith, omega arith, omega arith), tt)

abbrev prefixed : PrefixedReadIo Scripted (List ℕ)
prefixed = Prefixed.new source (8 ∷ 9 ∷ [])

-- Three bytes of a buffer of four are still to be sent.
abbrev pending : BufWriter Scripted
pending = record { inner = sink; buf = some (1 ∷ 2 ∷ 3 ∷ 0 ∷ []); cap = 3 }

flush-Flushed_example :
    Flushed writer_spec [] (1 ∷ 2 ∷ 3 ∷ []) (Writer.flush writer 5 pending)
    × Flushed writer_spec [] (1 ∷ 2 ∷ 3 ∷ []) (Writer.shutdown writer 5 pending)
flush-Flushed_example =
    flush-Flushed writer_spec writer_patience 5 pending (omega arith, tt) (omega arith)

write-Written_example :
    Written writer_spec []
      (1 ∷ 2 ∷ 3 ∷ [])
      4
      (5 ∷ 6 ∷ [])
      (Writer.write writer 5 pending (5 ∷ 6 ∷ []))
write-Written_example =
    write-Written writer_spec writer_patience 5 pending (5 ∷ 6 ∷ []) (omega arith, tt) (omega arith)

-- The flush that fails after two bytes, and the next one, which sends these again.
abbrev failed : BufWriter Scripted
failed = record {
  inner = record { script = []; bytes = 1 ∷ 2 ∷ [] };
  buf = some (1 ∷ 2 ∷ 3 ∷ 0 ∷ []);
  cap = 3;
}

abbrev sent_again : BufWriter Scripted
sent_again = record {
  inner = record { script = []; bytes = 1 ∷ 2 ∷ 1 ∷ 2 ∷ 3 ∷ [] };
  buf = some (1 ∷ 2 ∷ 3 ∷ 0 ∷ []);
  cap = 0;
}

first_flush : Writer.flush writer 5 pending ≡ some (ok (failure (other 7), failed))
unfolding Writer.flush write_all
first_flush = refl

second_flush : Writer.flush writer 5 failed ≡ some (ok (success tt, sent_again))
unfolding Writer.flush write_all
second_flush = refl

flush-again_example :
    (sent_again.inner.bytes ≡ [] ++ (1 ∷ 2 ∷ 3 ∷ []))
    ⊎ ((k : ℕ) × (k < 3)
        × (sent_again.inner.bytes ≡ ([] ++ take k (1 ∷ 2 ∷ 3 ∷ [])) ++ (1 ∷ 2 ∷ 3 ∷ [])))
flush-again_example =
    flush-again writer_spec writer_patience 5 5 pending failed sent_again (other 7)
      (omega arith, tt) (omega arith) (omega arith) first_flush second_flush

copy_lem_example :
    Copied reader_spec writer_spec
      (1 ∷ 2 ∷ 3 ∷ 4 ∷ 5 ∷ [])
      []
      (copy reader writer true 70000 8 source sink)
copy_lem_example =
    copy_lem reader_spec writer_spec reader_patience writer_patience true 70000 8 source sink tt tt
      (omega arith) (omega arith) (omega arith)

-- The source after its first two bytes, which took one interruption
abbrev after_two : Scripted
after_two = record { script = []; bytes = 3 ∷ 4 ∷ 5 ∷ [] }

took_two : read_exact reader 4 source 2 ≡ some (ok (success (1 ∷ 2 ∷ []), after_two))
unfolding read_exact
took_two = refl

rewind_example :
    Exact
      (PrefixedLaws.prefixed_spec reader_spec bytes_spec)
      (1 ∷ 2 ∷ 3 ∷ 4 ∷ 5 ∷ [])
      4
      (read_exact (Prefixed.reader reader bytes_reader) 4 (Prefixed.new after_two (1 ∷ 2 ∷ [])) 4)
rewind_example =
    rewind reader_patience bytes_patience reader_spec bytes_spec 4 4 source after_two (1 ∷ 2 ∷ [])
      (1 ∷ 2 ∷ []) 2 4 tt (omega arith) took_two tt refl (omega arith)
