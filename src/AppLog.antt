-- ===== src/AppLog.antt =====
-- logger/logger.go, logger/handler.go, logger/context.go: the level and the handler of the program's
-- own log, its global logger, and the handler with colours. log/slog writes the other formats.
-- A logger is known by its handler; `lower` is strings.ToLower, `color` what fatih/color writes.
pub mod Levels
use red_team_coin.Base.{
  ℕ, Bool, true, false, not, ◌&&◌, Option, none, some, List, [], ◌∷◌, ◌++◌, map, if◌then◌else◌,
  Text, text, text_eq,
}
use red_team_coin.Config.{ClientConfig, ServerConfig}

pub data Level : Type 0 where
  debug info warn error : Level

-- Config, without its writer.
pub record LogConfig : Type 0 where
  pub level : Text
  pub format : Text
  pub quiet : Bool
  pub verbose : Bool

-- The switch of parseLevel.
unfoldable pub named_level : Text → Level
named_level level =
    if text_eq level (text "debug")
    then debug
    else if text_eq level (text "info")
    then info
    else if text_eq level (text "warn")
    then warn
    else if text_eq level (text "warning")
    then warn
    else if text_eq level (text "error")
    then error
    else info

unfoldable pub parse_level : (Text → Text) → LogConfig → Level
parse_level lower cfg =
    if cfg.verbose then debug else if cfg.quiet then error else named_level (lower cfg.level)

-- A handler, with the attributes and groups that WithAttrs and WithGroup gave to the inner handler
-- of log/slog: each attribute is a key and a value.
pub data Format : Type 0 where
  json_format text_format color_format : Format

pub data Extra : Type 0 where
  attrs : List (Text × Text) → Extra
  group : Text → Extra

pub record Handler : Type 0 where
  pub format : Format
  pub level : Level
  pub inner : List Extra

unfoldable pub choose_format : Bool → Text → Format
choose_format is_terminal format =
    if text_eq format (text "json")
    then json_format
    else if text_eq format (text "color")
    then (if is_terminal then color_format else text_format)
    else if text_eq format (text "text")
    then text_format
    else if is_terminal
    then color_format
    else text_format

unfoldable pub create_handler : Bool → Text → Level → Handler
create_handler is_terminal format level = record {
  format = choose_format is_terminal format;
  level = level;
  inner = [];
}

module _ (lower : Text → Text) (is_terminal : Bool) where
  unfoldable pub new_logger : LogConfig → Handler
  new_logger cfg = create_handler is_terminal cfg.format (parse_level lower cfg)

  unfoldable pub new_from_server_config : ServerConfig → Handler
  new_from_server_config cfg = new_logger (record {
    level = cfg.logging.level;
    format = cfg.logging.format;
    quiet = cfg.logging.quiet;
    verbose = cfg.logging.verbose;
  })

  unfoldable pub new_from_client_config : ClientConfig → Handler
  new_from_client_config cfg = new_logger (record {
    level = cfg.logging.level;
    format = cfg.logging.format;
    quiet = cfg.logging.quiet;
    verbose = cfg.logging.verbose;
  })

  unfoldable pub default_logger : Handler
  default_logger =
      new_logger
        (record { level = text "info"; format = text "text"; quiet = false; verbose = false })

  -- Get: the global logger, set to the default if there is none; the second part is the new global.
  unfoldable pub get_logger : Option Handler → Handler × Option Handler
  get_logger none = (default_logger, some default_logger)
  get_logger (some logger) = (logger, some logger)

  -- FromContext: the logger of a context, or else the global one.
  unfoldable pub from_context : Option Handler → Option Handler → Handler × Option Handler
  from_context (some logger) global = (logger, global)
  from_context none global = get_logger global

-- A record of log/slog, with its time as it is printed.
pub record LogRecord : Type 0 where
  pub time : Text
  pub level : Level
  pub message : Text
  pub attrs : List (Text × Text)

unfoldable pub with_attrs : List (Text × Text) → Handler → Handler
with_attrs added h = record h { inner = h.inner ++ attrs added ∷ [] }

unfoldable pub with_group : Text → Handler → Handler
with_group name h = record h { inner = h.inner ++ group name ∷ [] }

-- The colours of the four levels.
unfoldable pub colorize_level : (Text → Text → Text) → Level → Text
colorize_level color debug = color (text "cyan") (text "DEBUG")
colorize_level color info = color (text "green") (text "INFO")
colorize_level color warn = color (text "yellow") (text "WARN")
colorize_level color error = color (text "red") (text "ERROR")

-- for each attribute of the record: buf += " key=value"
unfoldable pub add_attrs : List (Text × Text) → Text → Text
add_attrs [] buf = buf
add_attrs ((key, value) ∷ rest) buf =
    add_attrs rest (buf ++ (text " " ++ (key ++ (text "=" ++ value))))

-- ColorHandler.Handle: the line that it writes. `quote` is the verb %q.
unfoldable pub handle_colored : (Text → Text → Text) → (Text → Text) → Handler → LogRecord → Text
handle_colored color quote h r =
    let head =
      text "time="
      ++ (r.time
          ++ (text " level="
              ++ (colorize_level color r.level ++ (text " msg=" ++ quote r.message)))) in
    add_attrs r.attrs head
