-- ===== src/Examples/Rewriter.antt =====
-- A rewrite by an Ollama server.
use stocker_informer.Base.{◌≡◌, ◌↔◌, refl, true, [], ◌∷◌, none, codes, ◌*◌}
use stocker_informer.Int.{pos, second}
use stocker_informer.Errors.{ok}
use stocker_informer.Config.{OllamaConfig}
use stocker_informer.Text.{is_space, drop_while, drop_while_end, trim_space}
use stocker_informer.Consumer.{choose_text}
use stocker_informer.Rewriter.{Client, Ollama, new, rewrite}
use stocker_informer.Rewriter.Reports.{Reported, rewrite-ok_iff}
use stocker_informer.Rewriter.Chosen.{choose_text-rewrite}
use stocker_informer.Examples.World.{contexts, start}

abbrev library : Client contexts (Unit {0})
library = record {
  marshal = λ request. ok (123 ∷ []);
  new_request = λ ctx endpoint payload. none;
  send = λ timeout ctx endpoint payload w. (
    ok (record {
      status = 200;
      body = record { content = 123 ∷ []; failure = none };
      close = λ v. v;
    }),
    w,
  );
  decode = λ body.
      ok (record { response = codes " Up by 3%.\n"; done = true; done_reason = codes "stop" });
  today = λ w. codes "January 2, 2026";
}

abbrev settings : OllamaConfig (Unit {0})
settings = record {
  enabled = true;
  base_url = codes "http://ollama:11434";
  model = codes "gemma4:26b";
  system_prompt = codes " ";
  timeout = pos (120 * second);
  temperature = tt;
  max_tokens = pos 1024;
  max_output_chars = pos 280;
}

abbrev ollama : Ollama contexts (Unit {0})
ollama = new contexts (Unit {0}) library settings

the_report :
    (rewrite contexts (Unit {0}) ollama tt (codes "up 3%") start).0 ≡ ok (codes "Up by 3%.")
unfolding new rewrite trim_space is_space drop_while drop_while_end
the_report = refl

rewrite-ok_iff_example :
    ((rewrite contexts (Unit {0}) ollama tt (codes "up 3%") start).0 ≡ ok (codes "Up by 3%."))
    ↔ Reported contexts (Unit {0}) ollama tt (codes "up 3%") start (codes "Up by 3%.")
rewrite-ok_iff_example =
    rewrite-ok_iff contexts (Unit {0}) ollama (codes "Up by 3%.") tt (codes "up 3%") start

choose_text-rewrite_example :
    (choose_text (codes "up 3%") (rewrite contexts (Unit {0}) ollama tt (codes "up 3%") start).0
      ≡ (codes "Up by 3%.", true))
    ↔ Reported contexts (Unit {0}) ollama tt (codes "up 3%") start (codes "Up by 3%.")
choose_text-rewrite_example =
    choose_text-rewrite contexts (Unit {0}) ollama tt (codes "up 3%") start (codes "Up by 3%.")
