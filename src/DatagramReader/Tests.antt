-- ===== src/DatagramReader/Tests.antt =====
-- A datagram read out of a socket's buffer.
use schneeflocke.Base.{◌∷◌, ◌++◌, codes, arith}
use schneeflocke.BufferedReader.{BufferedReader}
use schneeflocke.BufferedReader
use schneeflocke.BufferedReader.Contract.{reader_channel}
use schneeflocke.DatagramReader.{Reader, new_reader, read}
use schneeflocke.DatagramReader.Stream.{Accounts, consumed, read-Accounts}

abbrev socket : BufferedReader
unfolding BufferedReader.new_reader
socket = record BufferedReader.new_reader {
  input_buffer = 0 ∷ 0 ∷ 0 ∷ 4 ∷ 0 ∷ 0 ∷ 0 ∷ 2 ∷ codes "ping{}more";
}

abbrev fresh_reader : Reader
unfolding new_reader
fresh_reader = new_reader

read-Accounts_example :
    Accounts reader_channel
      (consumed fresh_reader ++ socket.input_buffer)
      (read reader_channel fresh_reader socket)
unfolding fresh_reader socket
read-Accounts_example = read-Accounts reader_channel fresh_reader socket (omega arith) (omega arith)
