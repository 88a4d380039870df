-- ===== src/Classify/Words.antt =====
-- The closed classes of English words in internal/classify/structure.go.
use flow_indicator.Base.{String, List, [], ◌∷◌}

-- Words that may stand before a marker without being the subject of the sentence.
abbrev pub pre_subject_words : List String
pre_subject_words =
    "and" ∷ "but" ∷ "or" ∷ "nor" ∷ "yet" ∷ "so" ∷ "also" ∷ "then" ∷ "now" ∷ "again" ∷ "however"
    ∷ "therefore" ∷ "additionally" ∷ "further" ∷ "furthermore" ∷ "moreover" ∷ "meanwhile"
    ∷ "finally" ∷ "instead" ∷ "still" ∷ "currently" ∷ "next" ∷ "first" ∷ "firstly" ∷ "second"
    ∷ "secondly" ∷ "lastly" ∷ "otherwise" ∷ "besides" ∷ "please" ∷ "kindly" ∷ "you" ∷ "your"
    ∷ "yours" ∷ "yourself" ∷ "i" ∷ "me" ∷ "my" ∷ "we" ∷ "us" ∷ "our" ∷ "must" ∷ "should" ∷ "shall"
    ∷ "will" ∷ "would" ∷ "can" ∷ "could" ∷ "may" ∷ "might" ∷ "need" ∷ "do" ∷ "does" ∷ "did" ∷ "to"
    ∷ "be" ∷ "let" ∷ "the" ∷ "a" ∷ "an" ∷ "just" ∷ "ever" ∷ "not" ∷ "no" ∷ "only" ∷ "always"
    ∷ "never" ∷ []

-- Function words, which a repeat key drops.
abbrev pub closed_class : List String
closed_class =
    "a" ∷ "an" ∷ "the" ∷ "this" ∷ "that" ∷ "these" ∷ "those" ∷ "i" ∷ "me" ∷ "my" ∷ "mine" ∷ "we"
    ∷ "us" ∷ "our" ∷ "ours" ∷ "you" ∷ "your" ∷ "yours" ∷ "it" ∷ "its" ∷ "he" ∷ "she" ∷ "they"
    ∷ "them" ∷ "their" ∷ "theirs" ∷ "there" ∷ "here" ∷ "is" ∷ "are" ∷ "was" ∷ "were" ∷ "be" ∷ "been"
    ∷ "being" ∷ "am" ∷ "do" ∷ "does" ∷ "did" ∷ "doing" ∷ "done" ∷ "have" ∷ "has" ∷ "had" ∷ "having"
    ∷ "will" ∷ "would" ∷ "shall" ∷ "should" ∷ "can" ∷ "could" ∷ "may" ∷ "might" ∷ "must" ∷ "need"
    ∷ "let" ∷ "and" ∷ "or" ∷ "but" ∷ "nor" ∷ "so" ∷ "yet" ∷ "if" ∷ "then" ∷ "than" ∷ "as"
    ∷ "because" ∷ "while" ∷ "when" ∷ "where" ∷ "which" ∷ "who" ∷ "whom" ∷ "what" ∷ "how" ∷ "why"
    ∷ "to" ∷ "of" ∷ "in" ∷ "on" ∷ "at" ∷ "by" ∷ "for" ∷ "with" ∷ "from" ∷ "into" ∷ "onto" ∷ "over"
    ∷ "under" ∷ "about" ∷ "up" ∷ "down" ∷ "out" ∷ "off" ∷ "again" ∷ "any" ∷ "all" ∷ "some" ∷ "each"
    ∷ "every" ∷ "more" ∷ "most" ∷ "other" ∷ "such" ∷ "very" ∷ "too" ∷ "also" ∷ "just" ∷ "now"
    ∷ "still" ∷ "please" ∷ "make" ∷ "sure" ∷ "get" ∷ "got" ∷ []

-- Words that flip the polarity of a requirement.
abbrev pub negations : List String
negations =
    "not" ∷ "no" ∷ "never" ∷ "nor" ∷ "without" ∷ "avoid" ∷ "cannot" ∷ "cant" ∷ "dont" ∷ "don"
    ∷ "doesn" ∷ "didn" ∷ "isn" ∷ "aren" ∷ "wasn" ∷ "weren" ∷ "won" ∷ "wouldn" ∷ "shouldn" ∷ "couldn"
    ∷ "hasn" ∷ "hadn" ∷ "haven" ∷ "mustn" ∷ "shan" ∷ []
