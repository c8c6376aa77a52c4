-- ===== src/Lib.antt =====
-- Verification of avbperf, the program of this repository that sends and receives audio over an
-- AVB network (avbperf/*.c), less libwav (avbperf/wav.c), which is another project's.
--
-- A talker reads audio from ALSA, puts each fragment into an AVTP packet of format AAF with a
-- presentation time and a sequence number, and sends it. A listener checks each packet, records its
-- arrival and presentation times, queues the samples, starts playback by a timer at the first
-- presentation time, and at the end of a session makes figures of the times. The two run on different
-- machines; all that passes between them are the packets.
--
-- The files, and the code that each one models:
--   Prelude         the names shared by all: native numbers, tests, lists, C integers, bit masks
--   Sys             the calls made of Linux, ALSA and libwav, as a history with an environment that
--                   answers each call from all calls before it; runs end with a value, an exit or a
--                   fault; Sys/Descriptors says what a history leaves open, Sys/Outcomes which
--                   calls a run has made, Sys/Conclusion how a whole run may end
--   Terminal        `term_nonblock_setup` (avbperf/avb_aaf.c)
--   Settings        `stream_settings_t` (avbperf/avb_aaf.h) and the conversions on it
--   Time            `calculate_avtp_time`, `get_presentation_time`, `arm_timer` (avbperf/common.c);
--                   Time/Words is about the numbers that stand for times
--   Socket          the sockets and the output of avbperf/common.c
--   Stats           avbperf/avb_stats.c: Stats/Stack for the stack, Stats/Capture for the times,
--                   Stats/Summary and Stats/Order for `process_stat`, Stats/Report for
--                   `process_stats`
--   Reports         `print_settings` and `avb_stats_print_stats`, line by line
--   Avtp            libavtp, as a parameter with its documented laws; Avtp/Toy is an instance
--   Packet          `init_pdu`, `is_valid_packet` and the talker's stamps (avbperf/avb_aaf.c)
--   Alsa            avbperf/avb_alsa.c
--   Playout         `schedule_sample`, `play_fragment`, `aaf_timeout` (avbperf/avb_aaf.c);
--                   Playout/Armed and Playout/Deadline read the timer's state off a history
--   Listener        `new_packet` and the loop of `avb_aaf_listener`: `receive`, `playback` and
--                   `poll_exit` are the three parts of a round; Listener/Player is the player that
--                   the loop is to be, without calls and timers, and Listener/View shows it;
--                   Listener/Rule is the rule for what every part of a round keeps, and
--                   Listener/Owned is about the memory
--   Session         the start and the end of `avb_aaf_listener`: `open_all`, `session`, `finish`;
--                   Session/Entered leads from the start to the loop and says
--                   how the end is reached, Session/Accounts and
--                   Session/Closes on to the end, Session/Deaf where nothing has come;
--                   Session/Still, Session/Memory and Session/Leaks follow the memory through it
--   Talker          `avb_aaf_talker`; Talker/Packets is about the packets, Talker/Relay about the
--                   samples in them, Talker/Broadcast about both for a whole run;
--                   Talker/Overflow and Talker/Overrun are about a read that its PDU has no room for
--   Network         a run of the talker and one of the listener, joined by what the network does:
--                   packets are lost, or come from elsewhere, but are not reordered;
--                   Network/Program, Network/Parts and Network/Strangers start both by command lines
--   Cli             avbperf/avbperf.c: the parsers and `main`
--   Examples        data, tests and runs
--
-- State is passed explicitly: the listener's queue, expected number, statistics and playback flag are
-- `Listener.State`, the talker's header and number `Talker.State`. What the code changes outside itself
-- is the history.
--
-- Bounds: `int` is the type ℤ of Prelude, and unsigned integers are natural numbers with the
-- wrap-around written out. The loops of the talker and the listener have no end of their own; they
-- take a number of rounds, one for each poll or packet, and a result `again` or `none` says that the
-- rounds were used up inside the loop. All other loops are structural recursion on the list that they walk.
--
-- Parameters: libavtp (`Avtp`), floating-point arithmetic (`Floats`), the number readers of the C
-- library (`Scan`), ALSA's format codes (`PcmFormats`) and the environment (`Env`).
--
-- Not modelled: the messages on stderr, the text that the C library makes of a printed number, the
-- contents of buffers that the code leaves undefined, the bytes that playback reads beyond samples
-- that are shorter than a transfer, libwav, and the scripts, logs and tools around
-- the program. Of the files modelled nothing else is left out but prototypes, includes, constants
-- and comments.
pub mod Prelude
pub mod Sys
pub mod Terminal
pub mod Settings
pub mod Time
pub mod Socket
pub mod Stats
pub mod Reports
pub mod Avtp
pub mod Packet
pub mod Alsa
pub mod Playout
pub mod Listener
pub mod Session
pub mod Talker
pub mod Network
pub mod Cli
pub mod Examples
