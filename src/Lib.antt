-- ===== src/Lib.antt =====
-- breezybox: a shell, a virtual terminal system and a sound mixer for ESP32 boards, in C.
--
-- What is modelled
--   src/components/breezy_term/vterm.c, the virtual terminals. `Vterm.Screen` has one terminal
--   (vterm_t), its cells and the scroll, putchar and clear; `Vterm.Sgr` the colours
--   (vterm_apply_sgr); `Vterm.Escape` the state machine of escape sequences
--   (vterm_handle_escape) and, in `Escape.Motion` and `Escape.Edit`, their commands; `Vterm.Write`
--   vterm_write with its cached variables; `Vterm.Manager` the terminals together with the hot
--   buffer (vterm_init, vterm_switch, vterm_send_input and graphics mode); `Vterm.Hotkey` the
--   keyboard filter (vterm_input_feed and what it calls). The other modules under Vterm hold proofs:
--   `Layout` and `Lines` say what the loops leave in the cells,
--   `Valid`, `Commands` and `Step` keep the invariant, `Fast` compares the two paths of the writer,
--   `SgrLoop` is about termination, `Cursor` about positions, `Switching`, `Graphics` and
--   `Keyboard` about the terminals together.
--   src/components/breezybox/shell/sh_glob.c: `Shell.Glob.Bracket` has the bracket expressions,
--   `Shell.Glob.Match` the pattern matcher, `Shell.Glob.Strip` the operators that cut a prefix or a
--   suffix, `Shell.Glob.Paths` pathname expansion, where the names in a directory are a parameter.
--   src/components/breezybox/shell/sh_state.c: `Shell.State.Named` has its linked lists,
--   `Shell.State.Vars` variables, functions and positional parameters, `Shell.State.Scopes` the
--   frames of local variables and the commands that use them, `Shell.State.Startup` the start.
--   `Shell.Glob.Match.Decides`, `Shell.Glob.Folder`, `Shell.Glob.Expansion` and, under
--   Shell.State, `Lookup`, `Restore`, `Frames`, `Calls`, `Mirror` and `Functions` hold proofs.
--   src/components/breezybox/shell/sh_arith.c, the evaluator of $(( )): `Shell.Arith.Long` has its
--   numbers, `Shell.Arith.Scan` tokens and constants (parse_number), `Shell.Arith.Syntax` the
--   operators and try_assign_lhs, `Shell.Arith.Parse` parse_comma and what it calls, as one function
--   with a case for each (sh_arith_eval). `Shell.Arith.Literal` holds proofs, and `Shell.Arith.Ends`
--   with `Shorter`, `Settles` and the modules under it those of termination.
--   src/components/breezybox/shell/sh_lex.c and sh_lex.h, the lexer: `Shell.Lex.Quote` has
--   scan_cmdsub, scan_backtick and scan_braceparam, `Shell.Lex.Word` scan_word, `Shell.Lex.Token` the
--   tokens, here-documents (heredoc_delim, collect_heredoc), lex_redir and sh_lex. `Verbatim`,
--   `Shorter`, `Bodies`, `Ends`, `Quoted`, `Letters`, `Steps`, `HereDoc` and `NoDelimiter` hold proofs.
--   src/components/breezybox/shell/sh_parse.c and sh_parse.h, the parser of those tokens:
--   `Shell.Parse.Node` has the tree, `Shell.Parse.Cursor` the position (cur, adv, is_word),
--   `Shell.Parse.Redirect` parse_redir, `Shell.Parse.Simple` parse_simple, and `Shell.Parse.Grammar`
--   parse_list and what it calls, as one function with a case for each (sh_parse). `Consumed`,
--   `Commands`, `Lists` and `Ends` hold proofs.
--   src/components/breezybox/shell/sh_redir.c and sh_port.h: `Shell.Redir` has the redirections
--   (sh_redir_apply, sh_redir_restore), where fopen is a parameter; `Shell.Redir.Undone` holds proofs.
--   src/components/breezybox/breezy_vfs.c: `Cwd` has the working directory (breezybox_set_cwd and
--   breezybox_resolve_path).
--   src/components/breezy_sound/snd_osc.h and snd_core.c: `Sound.Osc` has the oscillator,
--   `Sound.Voice` the voices, their envelopes and the notes (snd_note_on, snd_note_off and the
--   voices of snd_all_off), `Sound.Mixer` a chunk of samples (render_chunk) and the output stage of
--   snd_task, `Sound.Power` how its loop starts and stops the output, `Sound.Stream` the stream
--   (snd_stream_open, space, write and close) with the side of the mixer that reads it, and
--   `Sound.Stream.Queue` what it promises. `Sound.Stream.Window`, `Holds` and `Refines` compare the
--   two; `Sound.Amplitude`, `Loudness` and `Notes` hold proofs. The voices and the stream meet in
--   the output stage, which adds the frames that are taken to the chunk.
--
-- How the state is modelled
--   A buffer of cells is a function from indices, of which the first rows * cols count; an access
--   beyond them sets `out_of_bounds`. An `int` or `long` of the C code is a number, and a sum or a
--   parsed number that no `int` holds sets `overflow` and is kept exact, so that after it the model no
--   longer speaks of the C code; so does a remainder whose quotient is no `long`. A `char` is a byte.
--   The size of the screen and the number of terminals are parameters, as in Kconfig. A terminal's
--   `cells` pointer is the place it leads to.
--   The shell's linked lists are lists, a pointer into a text is the rest of it, and the
--   environment is a function from names to values. The C library's atoi, sscanf, memmove and qsort
--   are written out as documented. Heap requests are answered by a parameter. An input queue of
--   FreeRTOS is the number of bytes that it has room for, which only the reads of the programs, not
--   modelled, make larger, and a log of what it took; a byte sent to a full one is lost. The program
--   and the mixer task run at once: a write to the stream is cut into the steps between which the
--   other side can come, and their order is any list of steps. What snd_note_on makes of a frequency
--   with floats, the board's limit and the tracker (snd_p8.c) are parameters.
--
-- Fuel
--   The loop of vterm_apply_sgr need not end. It runs on one round more than its text has bytes,
--   which is enough wherever any number of rounds is. The tab loop makes at most eight rounds. The
--   pattern matcher and the loop in a bracket run on one round more than their pattern has bytes,
--   since each round takes a byte of it. The fuel of the arithmetic evaluator is an argument, and it
--   bounds the depth of calls and rounds; without enough there is no result, and for every text there
--   is enough: a call within the text has less of it left or stands lower in the grammar, and the
--   values of variables nest 32 deep at most. Every loop of the lexer runs on one round more than
--   its text has bytes, since each round takes a byte of it; without enough there is no result. So
--   does the parser's loop over `!`, by tokens. The fuel of the parser is an argument: a call has
--   fewer tokens left or stands lower in the grammar.
--
-- Not modelled: mutexes and critical sections (each call runs alone, but for the stream), the
-- palette, the size override, the release of memory, and the other source files: the shell's
-- expansion and executor, and the parts that the device, the network or the file system fill.
pub mod Prelude
pub mod Vterm
pub mod Shell
pub mod Cwd
pub mod Sound
