-- ===== src/Wordlist/Odd.antt =====
-- `ODD_WORDS` of rs/src/wordlist.rs, in the order of the byte that each word stands for.
use Prim.Native.String.{String}
use minisign_rs.Base.{List, [], ◌∷◌}

abbrev pub odd_words : List String
odd_words =
    "adroitness" ∷ "adviser" ∷ "aggregate" ∷ "alkali" ∷ "almighty" ∷ "amulet" ∷ "amusement"
    ∷ "antenna" ∷ "applicant" ∷ "apollo" ∷ "armistice" ∷ "article" ∷ "asteroid" ∷ "atlantic"
    ∷ "atmosphere" ∷ "autopsy" ∷ "babylon" ∷ "backwater" ∷ "barbecue" ∷ "belowground" ∷ "bifocals"
    ∷ "bodyguard" ∷ "borderline" ∷ "bottomless" ∷ "bradbury" ∷ "brazilian" ∷ "breakaway"
    ∷ "burlington" ∷ "businessman" ∷ "butterfat" ∷ "camelot" ∷ "candidate" ∷ "cannonball"
    ∷ "capricorn" ∷ "caravan" ∷ "caretaker" ∷ "celebrate" ∷ "cellulose" ∷ "certify" ∷ "chambermaid"
    ∷ "cherokee" ∷ "chicago" ∷ "clergyman" ∷ "coherence" ∷ "combustion" ∷ "commando" ∷ "company"
    ∷ "component" ∷ "concurrent" ∷ "confidence" ∷ "conformist" ∷ "congregate" ∷ "consensus"
    ∷ "consulting" ∷ "corporate" ∷ "corrosion" ∷ "councilman" ∷ "crossover" ∷ "cumbersome"
    ∷ "customer" ∷ "dakota" ∷ "decadence" ∷ "december" ∷ "decimal" ∷ "designing" ∷ "detector"
    ∷ "detergent" ∷ "determine" ∷ "dictator" ∷ "dinosaur" ∷ "direction" ∷ "disable" ∷ "disbelief"
    ∷ "disruptive" ∷ "distortion" ∷ "divisive" ∷ "document" ∷ "embezzle" ∷ "enchanting"
    ∷ "enrollment" ∷ "enterprise" ∷ "equation" ∷ "equipment" ∷ "escapade" ∷ "eskimo" ∷ "everyday"
    ∷ "examine" ∷ "existence" ∷ "exodus" ∷ "fascinate" ∷ "filament" ∷ "finicky" ∷ "forever"
    ∷ "fortitude" ∷ "frequency" ∷ "gadgetry" ∷ "galveston" ∷ "getaway" ∷ "glossary" ∷ "gossamer"
    ∷ "graduate" ∷ "gravity" ∷ "guitarist" ∷ "hamburger" ∷ "hamilton" ∷ "handiwork" ∷ "hazardous"
    ∷ "headwaters" ∷ "hemisphere" ∷ "hesitate" ∷ "hideaway" ∷ "holiness" ∷ "hurricane" ∷ "hydraulic"
    ∷ "impartial" ∷ "impetus" ∷ "inception" ∷ "indigo" ∷ "inertia" ∷ "infancy" ∷ "inferno"
    ∷ "informant" ∷ "insincere" ∷ "insurgent" ∷ "integrate" ∷ "intention" ∷ "inventive" ∷ "istanbul"
    ∷ "jamaica" ∷ "jupiter" ∷ "leprosy" ∷ "letterhead" ∷ "liberty" ∷ "maritime" ∷ "matchmaker"
    ∷ "maverick" ∷ "medusa" ∷ "megaton" ∷ "microscope" ∷ "microwave" ∷ "midsummer" ∷ "millionaire"
    ∷ "miracle" ∷ "misnomer" ∷ "molasses" ∷ "molecule" ∷ "montana" ∷ "monument" ∷ "mosquito"
    ∷ "narrative" ∷ "nebula" ∷ "newsletter" ∷ "norwegian" ∷ "october" ∷ "ohio" ∷ "onlooker"
    ∷ "opulent" ∷ "orlando" ∷ "outfielder" ∷ "pacific" ∷ "pandemic" ∷ "pandora" ∷ "paperweight"
    ∷ "paragon" ∷ "paragraph" ∷ "paramount" ∷ "passenger" ∷ "pedigree" ∷ "pegasus" ∷ "penetrate"
    ∷ "perceptive" ∷ "performance" ∷ "pharmacy" ∷ "phonetic" ∷ "photograph" ∷ "pioneer"
    ∷ "pocketful" ∷ "politeness" ∷ "positive" ∷ "potato" ∷ "processor" ∷ "prophecy" ∷ "provincial"
    ∷ "proximate" ∷ "puberty" ∷ "publisher" ∷ "pyramid" ∷ "quantity" ∷ "racketeer" ∷ "rebellion"
    ∷ "recipe" ∷ "recover" ∷ "repellent" ∷ "replica" ∷ "reproduce" ∷ "resistor" ∷ "responsive"
    ∷ "retraction" ∷ "retrieval" ∷ "retrospect" ∷ "revenue" ∷ "revival" ∷ "revolver" ∷ "sahara"
    ∷ "sandalwood" ∷ "sardonic" ∷ "saturday" ∷ "savagery" ∷ "scavenger" ∷ "sensation" ∷ "sociable"
    ∷ "souvenir" ∷ "specialist" ∷ "speculate" ∷ "stethoscope" ∷ "stupendous" ∷ "supportive"
    ∷ "surrender" ∷ "suspicious" ∷ "sympathy" ∷ "tambourine" ∷ "telephone" ∷ "therapist" ∷ "tobacco"
    ∷ "tolerance" ∷ "tomorrow" ∷ "torpedo" ∷ "tradition" ∷ "travesty" ∷ "trombonist" ∷ "truncated"
    ∷ "typewriter" ∷ "ultimate" ∷ "undaunted" ∷ "underfoot" ∷ "unicorn" ∷ "unify" ∷ "universe"
    ∷ "unravel" ∷ "upcoming" ∷ "vacancy" ∷ "vagabond" ∷ "versatile" ∷ "vertigo" ∷ "virginia"
    ∷ "visitor" ∷ "vocalist" ∷ "voyager" ∷ "warranty" ∷ "waterloo" ∷ "whimsical" ∷ "wichita"
    ∷ "wilmington" ∷ "wyoming" ∷ "yesteryear" ∷ "yucatan" ∷ []
