-- ===== src/Wav/Reading.antt =====
-- The calls of <stdio.h> that the WAV reader makes on a file opened for reading.
use tcpremote_device_control.Base.{
  ℕ, ◌+◌, Bool, if◌then◌else◌, Option, none, some, length, take, drop, Bytes,
}

-- What is left to read, and how much lies before it. A stream such as a pipe is not seekable.
pub record Stream : Type 0 where
  pub rest : Bytes
  pub position : ℕ
  pub seekable : Bool

-- fread with items of one byte: fewer bytes at the end of the file.
unfoldable pub fread : ℕ → Stream → Bytes × Stream
fread n f = (
  take n f.rest,
  record f { rest = drop n f.rest; position = f.position + length (take n f.rest) },
)

-- fseek from the current position, possibly behind the end.
abbrev pub seek : ℕ → Stream → Option Stream
seek n f =
    if f.seekable then some (record f { rest = drop n f.rest; position = f.position + n }) else none
