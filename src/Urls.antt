-- ===== src/Urls.antt =====
-- What the program reads of net/url: the parts of an address that url.Parse gives. Parsing itself is a
-- parameter of the definitions that need it.
use speakertrail.Common.{Option, Text}

pub record Url : Type 0 where
  pub scheme : Text
  -- Host, with the port.
  pub host : Text
  -- Hostname(), without it.
  pub hostname : Text
  pub path : Text
  -- EscapedPath()
  pub escaped_path : Text
  pub raw_query : Text

-- url.Parse, with `none` for an error.
abbrev pub Parser : Type 0
Parser = Text → Option Url
