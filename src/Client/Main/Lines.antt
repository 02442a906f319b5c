-- ===== src/Client/Main/Lines.antt =====
-- What the client's console sends.
use tyfirc.Base.{
  ℕ, true, false, ◌≡◌, refl, sym, ap, ◌∙◌, List, [], ◌∷◌, ◌++◌, map, append_assoc, append-nil, All,
}
use tyfirc.Base.Text.{Str}
use tyfirc.Base.Result.{Result, ok}
use tyfirc.Time.{Clock}
use tyfirc.ScMessage.{frame}
use tyfirc.ScMessage.Buffers.{chat}
use tyfirc.Client.{
  Socket, ChatRw, is_connected, is_logged_in, answered, asked, query, auth, success_of,
  read_scmessage, write_scmessage,
}
use tyfirc.Client
use tyfirc.Client.App.{IrcClientApp, has_separator, write_message}
use tyfirc.Client.{write_text}
use tyfirc.Client.Chat.{get_message-chat, IsShown, shown, written_by}
use tyfirc.Client.Main.{Cin, next_line, unless_ended, write_lines}

-- The times of the passes with the texts, one for each pass, and empty ones behind them.
abbrev pub paired : List ℕ → List Str → List (ℕ × Str)
paired [] texts = []
paired (now ∷ nows) [] = (now, []) ∷ paired nows []
paired (now ∷ nows) (text ∷ texts) = (now, text) ∷ paired nows texts

paired-blank : (nows : List ℕ) → paired nows ([] ∷ []) ≡ paired nows []
paired-blank [] = refl
paired-blank (now ∷ nows) = refl

-- What a pass writes.
abbrev pub frame_of : Clock → Str → ℕ × Str → Str
frame_of c username (now, line) =
    frame (chat (shown c (record { username = username; text = line; time = now })))

abbrev pub with_log : List Str → IrcClientApp (List Str) → IrcClientApp (List Str)
with_log log app = record app { chat_rw = record app.chat_rw { socket = log } }

-- A console whose flags are clear.
abbrev pub console : List Str → Str → Cin
console lines rest = record { lines = lines; rest = rest; good = true }

module _ (io : Socket (List Str))
    (accepts : (bytes : Str) (s : List Str) → io.write bytes s ≡ (true, s ++ bytes ∷ [])) where
  write_message-log :
      (c : Clock) (now : ℕ) (line : Str) (app : IrcClientApp (List Str))
      → IsShown c now
      → is_connected app.chat_rw.con_state ≡ true
      → has_separator line ≡ false
      → write_message io c now line app
        ≡ (with_log (app.chat_rw.socket ++ frame_of c app.username (now, line) ∷ []) app, ok tt)
  unfolding write_message Client.write_message write_text write_scmessage
  write_message-log c now line app t on clean =
      rw (clean, on, get_message-chat c (written_by app now line) t, accepts) refl

  -- A pass that writes a text, and the passes behind it.
  one_more :
      (c : Clock) (now : ℕ) (text : Str) (pairs : List (ℕ × Str)) (app : IrcClientApp (List Str))
      (later : IrcClientApp (List Str) → IrcClientApp (List Str) × Result {0} Unit)
      → IsShown c now
      → is_connected app.chat_rw.con_state ≡ true
      → has_separator text ≡ false
      → ((log : List Str)
          → later (with_log log app)
            ≡ (with_log (log ++ map (frame_of c app.username) pairs) app, ok tt))
      → unless_ended (write_message io c now text app) (λ app _. later app) ≡ (
        with_log (app.chat_rw.socket ++ map (frame_of c app.username) ((now, text) ∷ pairs)) app,
        ok tt,
      )
  one_more c now text pairs app later t on clean h =
      rw (write_message-log c now text app t on clean) (
        h (app.chat_rw.socket ++ frame_of c app.username (now, text) ∷ [])
        ∙ ap (λ log. (with_log log app, ok tt))
            (append_assoc app.chat_rw.socket (frame_of c app.username (now, text) ∷ []) _))

  -- A client that is connected, over a stream that takes everything, writes one frame in each pass:
  -- of the lines of the console, in their order, of what stands behind the last newline, and behind
  -- it of as many empty texts as there are passes left; if no text has a separator and the years
  -- have four digits and no daylight saving.
  pub write_lines-frames :
      (c : Clock) (nows : List ℕ) (prompt : Str) (lines : List Str) (rest : Str)
      (app : IrcClientApp (List Str))
      → is_connected app.chat_rw.con_state ≡ true
      → All (IsShown c) nows
      → All (λ text. has_separator text ≡ false) (lines ++ rest ∷ [])
      → write_lines io c nows prompt (console lines rest) app ≡ (
        with_log
            (app.chat_rw.socket ++ map (frame_of c app.username) (paired nows (lines ++ rest ∷ [])))
            app,
        ok tt,
      )
  unfolding write_lines next_line
  write_lines-frames c [] prompt lines rest app on ts clean =
      ap (λ log. (with_log log app, ok tt)) (sym (append-nil app.chat_rw.socket))
  write_lines-frames c (now ∷ nows) prompt [] rest app on (t, ts) (clean, _) =
      one_more c now rest (paired nows []) app (write_lines io c nows rest (console [] [])) t on
        clean
        (λ log.
          write_lines-frames c nows rest [] [] (with_log log app) on ts (refl, tt)
          ∙ ap (λ pairs. (with_log (log ++ map (frame_of c app.username) pairs) app, ok tt))
              (paired-blank nows))
  write_lines-frames c (now ∷ nows) prompt (line ∷ lines) rest app on (t, ts) (clean, others) =
      one_more c now line (paired nows (lines ++ rest ∷ [])) app
        (write_lines io c nows line (console lines rest)) t on clean
        (λ log. write_lines-frames c nows line lines rest (with_log log app) on ts others)
